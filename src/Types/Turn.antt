-- ===== src/Types/Turn.antt =====
-- src/types/turn.rs: turn identifiers and turn snapshots.
use admissibility_kernel.Base.{ℕ, Option, some, none, Str, Bool, true, false, Result, ok, err}
use admissibility_kernel.Base.Int.{ℤ}
use admissibility_kernel.Crates.{Floats, clamp, Crypto}
use admissibility_kernel.CanonicalContent.{validate_content_hash, valid, mismatch, missing}
use admissibility_kernel.Types.Role.{Role}
use admissibility_kernel.Types.Phase.{Phase}

-- A UUID by its 128-bit value: its order is that of the 16 bytes, most significant first.
abbrev pub TurnId : Type 0
TurnId = ℕ

pub record TurnSnapshot (F : Type 0) : Type 0 where
  pub id : TurnId
  pub session_id : Str
  pub role : Role
  pub phase : Phase
  pub salience : F
  pub trajectory_depth : ℕ
  pub trajectory_sibling_order : ℕ
  pub trajectory_homogeneity : F
  pub trajectory_temporal : F
  pub trajectory_complexity : F
  pub created_at : ℤ
  pub content_hash : Option Str

-- `ContentHashError::Mismatch`
pub record ContentHashError : Type 0 where
  pub turn_id : TurnId
  pub stored : Str
  pub computed : Str

module _ {F : Type 0} where
  module _ (fl : Floats F) where
    unfoldable pub new_with_content_hash :
        TurnId → Str → Role → Phase → F → ℕ → ℕ → F → F → F → ℤ → Option Str → TurnSnapshot F
    new_with_content_hash id session role phase salience depth order homogeneity temporal complexity
          created hash =
        let zero_one = λ (x : F). clamp fl x (fl.decimal 0 0) (fl.decimal 1 0) in
        record {
          id = id;
          session_id = session;
          role = role;
          phase = phase;
          salience = zero_one salience;
          trajectory_depth = depth;
          trajectory_sibling_order = order;
          trajectory_homogeneity = zero_one homogeneity;
          trajectory_temporal = zero_one temporal;
          trajectory_complexity = complexity;
          created_at = created;
          content_hash = hash;
        }

    unfoldable pub new : TurnId → Str → Role → Phase → F → ℕ → ℕ → F → F → F → ℤ → TurnSnapshot F
    unfolding new_with_content_hash
    new id session role phase salience depth order homogeneity temporal complexity created =
        new_with_content_hash id session role phase salience depth order homogeneity temporal
          complexity created none

  unfoldable pub with_content_hash : TurnSnapshot F → Option Str → TurnSnapshot F
  with_content_hash t hash = record t { content_hash = hash }

  unfoldable pub has_content_hash : TurnSnapshot F → Bool
  has_content_hash t = elim t.content_hash [ none ↦ false | some h ↦ true ]

  -- A turn with no hash passes: it is older than the hashes.
  unfoldable pub verify_content_hash :
      Crypto F → TurnSnapshot F → Str → Result ContentHashError (Unit {0})
  verify_content_hash cr t content = elim (validate_content_hash cr content t.content_hash) [
    | valid ↦ ok tt
    | missing ↦ ok tt
    | mismatch expected computed ↦
        err (record { turn_id = t.id; stored = expected; computed = computed })
  ]
