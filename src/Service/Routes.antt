-- ===== src/Service/Routes.antt =====
-- src/service/routes.rs: the handlers of the service. A handler reads the state, and
-- `register_policy_handler` also returns the new one. What comes from the formatting of other crates
-- is a parameter: the message of a UUID that does not parse, the debug text of a reference.
pub mod Promises
pub mod Answers
pub mod Batch
pub mod Health
use admissibility_kernel.Base.{
  ℕ, List, [], ◌∷◌, ◌++◌, map, Bool, true, false, Option, none, some, Str, Bytes, codes, length,
  Result, ok, err, if◌then◌else◌,
}
use admissibility_kernel.Base.Int.{ℤ}
use admissibility_kernel.Crates.{Floats, Crypto}
use admissibility_kernel.Types.Turn.{TurnId}
use admissibility_kernel.Types.Slice.{SliceExport, turn_ids}
use admissibility_kernel.Types.Slice.Token.{verify_hmac}
use admissibility_kernel.Types.Admissible.{AdmissibleEvidenceBundle}
use admissibility_kernel.Policy.V1
use admissibility_kernel.Policy.V1.{SlicePolicyV1}
use admissibility_kernel.Slicer.{SlicerError, slice}
use admissibility_kernel.Slicer.Display.{slicer_error_string}
use admissibility_kernel.Service.Messages.{
  SliceRequest, BatchSliceRequest, SliceExportDto, SliceResponse, SliceError, BatchSliceResponse,
  VerifyTokenRequest, VerifyTokenResponse, PolicyListResponse, ErrorResponse, Failure, new_error,
  with_details,
}
use admissibility_kernel.Service.State.{
  PolicyRef, PolicyRegistry, from_policy, register, resolve, list, fingerprint, ServiceState,
}

module _ {F : Type 0} (cr : Crypto F) where
  -- `From<SliceExport> for SliceExportDto`
  unfoldable pub to_dto : SliceExport F → SliceExportDto
  to_dto s = record {
    slice_id = s.slice_id;
    anchor_turn_id = cr.uuid_string s.anchor_turn_id;
    turn_ids = map (λ t. cr.uuid_string t.id) s.turns;
    edge_count = length s.edges;
    policy_id = s.policy_id;
    policy_params_hash = s.policy_params_hash;
    schema_version = s.schema_version;
    graph_snapshot_hash = s.graph_snapshot_hash;
    admissibility_token = s.admissibility_token;
  }

  unfoldable pub verify_token_handler :
      {E : Type 0} → ServiceState F E → VerifyTokenRequest → VerifyTokenResponse
  verify_token_handler st request = elim (cr.parse_uuid request.anchor_turn_id) [
    | none ↦ record { valid = false; reason = some (codes "Invalid anchor_turn_id format") }
    | some anchor_id ↦
        let valid =
          verify_hmac cr request.admissibility_token st.hmac_secret request.slice_id anchor_id
            request.policy_id request.policy_params_hash request.graph_snapshot_hash
            request.schema_version in
        record {
          valid = valid;
          reason = if valid then none else some (codes "Token does not match expected HMAC");
        }
  ]

module _ {F : Type 0} (fl : Floats F) (cr : Crypto F) (debug_ref : PolicyRef → Str) where
  -- The block that both slice handlers start with.
  unfoldable pub choose_policy :
      PolicyRegistry F → Option PolicyRef → Result Failure (SlicePolicyV1 F × PolicyRef)
  unfolding new_error
  choose_policy registry none =
      let default_policy = V1.default fl in ok (default_policy, from_policy fl cr default_policy)
  choose_policy registry (some pref) = elim (resolve registry pref) [
    | some policy ↦ ok (policy, pref)
    | none ↦ err (record {
      status = 404;
      body = new_error (codes "POLICY_NOT_FOUND") (codes "Policy not found: " ++ debug_ref pref);
    })
  ]

module _ {F : Type 0} (cr : Crypto F) where
  -- What the handler makes of the slicer's result, after which nothing is left to do.
  unfoldable pub respond :
      PolicyRef
      → Option (Result SlicerError (AdmissibleEvidenceBundle F))
      → Option (Result Failure SliceResponse)
  unfolding to_dto new_error slicer_error_string
  respond policy_ref none = none
  respond policy_ref (some (ok bundle)) =
      some (ok (record { slice = to_dto cr bundle.slice; policy_ref = policy_ref }))
  respond policy_ref (some (err e)) = some (
      err (record {
        status = 500;
        body =
            new_error (codes "SLICE_FAILED")
              (codes "Slice generation failed: " ++ slicer_error_string cr e);
      }))

module _ {F E : Type 0} (fl : Floats F) (cr : Crypto F) where
  unfoldable pub list_policies_handler : ServiceState F E → PolicyListResponse
  list_policies_handler st = record {
    policies = list st.policy_registry;
    registry_fingerprint = fingerprint st.policy_registry;
  }

  unfoldable pub register_policy_handler :
      ServiceState F E → SlicePolicyV1 F → PolicyRef × ServiceState F E
  register_policy_handler st policy =
      let step = register fl cr st.policy_registry policy in
      (step.0, record st { policy_registry = step.1 })

  module _ (uuid_error : Str → Str) (debug_ref : PolicyRef → Str) (now : ℤ) where
    -- `none` would mean that the slicer's loop does not end.
    unfoldable pub slice_handler :
        ServiceState F E → SliceRequest → Option (Result Failure SliceResponse)
    unfolding choose_policy respond with_details
    slice_handler st request = elim (cr.parse_uuid request.anchor_turn_id) [
      | none ↦ some (
          err (record {
            status = 400;
            body =
                with_details
                  (new_error (codes "INVALID_TURN_ID")
                    (codes "Invalid anchor turn ID: " ++ uuid_error request.anchor_turn_id))
                  request.anchor_turn_id;
          }))
      | some anchor_id ↦
          elim (choose_policy fl cr debug_ref st.policy_registry request.policy_ref) [
            | err failure ↦ some (err failure)
            | ok (policy, policy_ref) ↦
                respond cr policy_ref (slice fl cr st.store policy st.hmac_secret now anchor_id)
          ]
    ]

    -- One turn of the batch loop: a slice, or an error with its anchor.
    unfoldable pub slice_anchor :
        ServiceState F E → SlicePolicyV1 F → Str → Option (Result SliceError SliceExportDto)
    unfolding to_dto slicer_error_string
    slice_anchor st policy anchor_str = elim (cr.parse_uuid anchor_str) [
      | none ↦ some (
          err (record {
            anchor_turn_id = anchor_str;
            error = codes "Invalid turn ID: " ++ uuid_error anchor_str;
          }))
      | some anchor_id ↦ elim (slice fl cr st.store policy st.hmac_secret now anchor_id) [
        | none ↦ none
        | some r ↦ elim r [
          | ok bundle ↦ some (ok (to_dto cr bundle.slice))
          | err e ↦
              some (err (record { anchor_turn_id = anchor_str; error = slicer_error_string cr e }))
        ]
      ]
    ]

    -- The loop over the anchors, with the slices and errors pushed so far.
    unfoldable pub batch_loop :
        ServiceState F E
        → SlicePolicyV1 F
        → List Str
        → List SliceExportDto
        → List SliceError
        → Option (List SliceExportDto × List SliceError)
    unfolding slice_anchor
    batch_loop st policy [] slices errors = some (slices, errors)
    batch_loop st policy (anchor_str ∷ rest) slices errors =
        elim (slice_anchor st policy anchor_str) [
          | none ↦ none
          | some r ↦ elim r [
            | ok dto ↦ batch_loop st policy rest (slices ++ dto ∷ []) errors
            | err e ↦ batch_loop st policy rest slices (errors ++ e ∷ [])
          ]
        ]

    unfoldable pub batch_slice_handler :
        ServiceState F E → BatchSliceRequest → Option (Result Failure BatchSliceResponse)
    unfolding choose_policy batch_loop
    batch_slice_handler st request =
        elim (choose_policy fl cr debug_ref st.policy_registry request.policy_ref) [
          | err failure ↦ some (err failure)
          | ok (policy, policy_ref) ↦ elim (batch_loop st policy request.anchor_turn_ids [] []) [
            | none ↦ none
            | some (slices, errors) ↦ some (
                ok (record {
                  slices = slices;
                  policy_ref = policy_ref;
                  success_count = length slices;
                  errors = errors;
                }))
          ]
        ]
