-- ===== src/Service/State.antt =====
-- src/service/state.rs: policy references, the registry of policies, and the state of the service.
pub mod Registry
use admissibility_kernel.Base.{
  ℕ, List, [], ◌∷◌, map, Bool, true, false, Option, none, some, Ordering, Str, Bytes, codes, length,
  is_empty, if◌then◌else◌,
}
use Prim.Native.Nat.Ordering.{lt, eq}
use admissibility_kernel.Base.Order.{
  IsOrd, Ord, pair_ord, pair_cmp, pair_cmp-IsOrd, list_ord, nat_ord,
}
use admissibility_kernel.Base.Tree.{get, insert, keys}
use admissibility_kernel.Crates.{Floats, Crypto, Value, str, obj, field, end}
use admissibility_kernel.Canonical.{canonical_hash_hex, seq}
use admissibility_kernel.Policy.V1
use admissibility_kernel.Policy.V1.{SlicePolicyV1, policy_id, params_hash}
use admissibility_kernel.Store.{GraphStore}
use admissibility_kernel.Base.{◌≡◌, arith}

pub record PolicyRef : Type 0 where
  pub policy_id : Str
  pub params_hash : Str

-- The derived order, by the fields.
abbrev pub pair_of : PolicyRef → Str × Str
pair_of r = (r.policy_id, r.params_hash)

abbrev pub ref_cmp : PolicyRef → PolicyRef → Ordering
ref_cmp a b = pair_cmp (pair_of a) (pair_of b)

pub ref_cmp-IsOrd : IsOrd ref_cmp
ref_cmp-IsOrd =
    let laws = pair_cmp-IsOrd {B = Str} {A = Str} in
    record {
      cmp_refl = λ a. laws.cmp_refl (pair_of a);
      eq_of_cmp = λ a b h. ground (arith, laws.eq_of_cmp (pair_of a) (pair_of b) h);
      cmp_reverse = λ a b. laws.cmp_reverse (pair_of a) (pair_of b);
      lt_trans = λ a b c. laws.lt_trans (pair_of a) (pair_of b) (pair_of c);
    }

instance abbrev pub ref_ord : Ord PolicyRef
ref_ord = record { cmp = ref_cmp; lawful = ref_cmp-IsOrd }

-- The derived `Serialize`.
abbrev pub ref_value : {F : Type 0} → PolicyRef → Value F
ref_value r = obj (
    field (codes "policy_id") (str r.policy_id)
      (field (codes "params_hash") (str r.params_hash) end))

pub record PolicyRegistry (F : Type 0) : Type 0 where
  pub policies : List (PolicyRef × SlicePolicyV1 F)
  pub registry_fingerprint : Str

-- `contains_key`
abbrev pub is_present : {A : Type 0} → Option A → Bool
is_present none = false
is_present (some a) = true

module _ {F : Type 0} (fl : Floats F) (cr : Crypto F) where
  unfoldable pub from_policy : SlicePolicyV1 F → PolicyRef
  from_policy p = record { policy_id = policy_id p; params_hash = params_hash fl cr p }

  unfoldable pub update_fingerprint : PolicyRegistry F → PolicyRegistry F
  update_fingerprint r = record r {
    registry_fingerprint = canonical_hash_hex cr (seq (map ref_value (keys r.policies)));
  }

  -- `PolicyRegistry::new`
  unfoldable pub new : PolicyRegistry F
  unfolding update_fingerprint
  new = update_fingerprint (record { policies = []; registry_fingerprint = [] })

  unfoldable pub register : PolicyRegistry F → SlicePolicyV1 F → PolicyRef × PolicyRegistry F
  unfolding update_fingerprint from_policy
  register r policy =
      let policy_ref = from_policy policy in
      if is_present (get policy_ref r.policies) then (policy_ref, r) else (
        policy_ref,
        update_fingerprint (record r { policies = insert policy_ref policy r.policies }),
      )

  unfoldable pub with_defaults : PolicyRegistry F
  unfolding new register
  with_defaults = (register new (V1.default fl)).1

module _ {F : Type 0} where
  unfoldable pub resolve : PolicyRegistry F → PolicyRef → Option (SlicePolicyV1 F)
  resolve r policy_ref = get policy_ref r.policies

  unfoldable pub list : PolicyRegistry F → List PolicyRef
  list r = keys r.policies

  unfoldable pub fingerprint : PolicyRegistry F → Str
  fingerprint r = r.registry_fingerprint

  unfoldable pub len : PolicyRegistry F → ℕ
  len r = length r.policies

  unfoldable pub is_empty_registry : PolicyRegistry F → Bool
  is_empty_registry r = is_empty r.policies

pub record ServiceState (F E : Type 0) : Type 0 where
  pub store : GraphStore F E
  pub policy_registry : PolicyRegistry F
  pub hmac_secret : Bytes

module _ {F E : Type 0} where
  unfoldable pub with_registry : GraphStore F E → PolicyRegistry F → Bytes → ServiceState F E
  with_registry store registry secret = record {
    store = store;
    policy_registry = registry;
    hmac_secret = secret;
  }

  -- `ServiceState::new`
  unfoldable pub new_state : Floats F → Crypto F → GraphStore F E → Bytes → ServiceState F E
  unfolding with_defaults
  new_state fl cr store secret = record {
    store = store;
    policy_registry = with_defaults fl cr;
    hmac_secret = secret;
  }

  -- `from_env`, given the bytes of `KERNEL_HMAC_SECRET` if it is set.
  unfoldable pub from_env : Floats F → Crypto F → GraphStore F E → Option Bytes → ServiceState F E
  unfolding new_state
  from_env fl cr store none =
      new_state fl cr store (codes "development_only_secret_not_for_production")
  from_env fl cr store (some secret) = new_state fl cr store secret
