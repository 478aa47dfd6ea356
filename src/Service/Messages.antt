-- ===== src/Service/Messages.antt =====
-- src/service/routes.rs: the requests and responses of the handlers.
use admissibility_kernel.Base.{ℕ, List, Bool, Option, none, some, Str}
use admissibility_kernel.Service.State.{PolicyRef}

pub record SliceRequest : Type 0 where
  pub anchor_turn_id : Str
  pub policy_ref : Option PolicyRef

pub record BatchSliceRequest : Type 0 where
  pub anchor_turn_ids : List Str
  pub policy_ref : Option PolicyRef

pub record SliceExportDto : Type 0 where
  pub slice_id : Str
  pub anchor_turn_id : Str
  pub turn_ids : List Str
  pub edge_count : ℕ
  pub policy_id : Str
  pub policy_params_hash : Str
  pub schema_version : Str
  pub graph_snapshot_hash : Str
  pub admissibility_token : Str

pub record SliceResponse : Type 0 where
  pub slice : SliceExportDto
  pub policy_ref : PolicyRef

pub record SliceError : Type 0 where
  pub anchor_turn_id : Str
  pub error : Str

pub record BatchSliceResponse : Type 0 where
  pub slices : List SliceExportDto
  pub policy_ref : PolicyRef
  pub success_count : ℕ
  pub errors : List SliceError

pub record VerifyTokenRequest : Type 0 where
  pub admissibility_token : Str
  pub slice_id : Str
  pub anchor_turn_id : Str
  pub policy_id : Str
  pub policy_params_hash : Str
  pub graph_snapshot_hash : Str
  pub schema_version : Str

pub record VerifyTokenResponse : Type 0 where
  pub valid : Bool
  pub reason : Option Str

pub record PolicyListResponse : Type 0 where
  pub policies : List PolicyRef
  pub registry_fingerprint : Str

pub record ErrorResponse : Type 0 where
  pub error : Str
  pub code : Str
  pub correlation_id : Option Str
  pub details : Option Str

-- A status code and its body.
pub record Failure : Type 0 where
  pub status : ℕ
  pub body : ErrorResponse

-- `ErrorResponse::new`
unfoldable pub new_error : Str → Str → ErrorResponse
new_error code error = record { error = error; code = code; correlation_id = none; details = none }

unfoldable pub with_correlation_id : ErrorResponse → Str → ErrorResponse
with_correlation_id e id = record e { correlation_id = some id }

unfoldable pub with_details : ErrorResponse → Str → ErrorResponse
with_details e details = record e { details = some details }
