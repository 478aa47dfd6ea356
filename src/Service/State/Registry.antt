-- ===== src/Service/State/Registry.antt =====
-- What the policy registry of src/service/state.rs keeps.
use Prim.Native.Nat.Ordering.{lt, eq, gt}
use admissibility_kernel.Base.{
  ◌≡◌, ◌≢◌, refl, sym, ap, subst, ◌∙◌, ◌⊎◌, inl, inr, ⊎_elim, List, map, none, some, Ordering,
  Option-cases, arith,
}
use admissibility_kernel.Base.Tree.{
  get, insert, keys, IsOrdered, insert-IsOrdered, get-insert_same, get-insert_other, insert_comm,
}
use admissibility_kernel.Crates.{Floats, Crypto}
use admissibility_kernel.Canonical.{canonical_hash_hex, seq}
use admissibility_kernel.Policy.V1.{SlicePolicyV1}
use admissibility_kernel.Service.State.{
  PolicyRef, ref_cmp, ref_cmp-IsOrd, ref_ord, ref_value, PolicyRegistry, from_policy,
  update_fingerprint, new, register, resolve,
}

is_eq : (o : Ordering) → (o ≡ eq) ⊎ (o ≢ eq)
is_eq lt = inr (λ e. cc)
is_eq eq = inl refl
is_eq gt = inr (λ e. cc)

module _ {F : Type 0} (fl : Floats F) (cr : Crypto F) where
  -- The registries that a program can build.
  pub data Built : PolicyRegistry F → Type 0 where
    empty : Built (new fl cr)
    registered :
        {r : PolicyRegistry F} (policy : SlicePolicyV1 F)
        → Built r
        → Built (register fl cr r policy).1

  pub record WellFormed (r : PolicyRegistry F) : Type 0 where
    pub ordered : IsOrdered r.policies
    pub own_ref :
        (k : PolicyRef) (p : SlicePolicyV1 F) → get k r.policies ≡ some p → from_policy fl cr p ≡ k
    pub current :
        r.registry_fingerprint ≡ canonical_hash_hex cr (seq (map ref_value (keys r.policies)))

  new-WellFormed : WellFormed (new fl cr)
  unfolding new update_fingerprint get
  new-WellFormed = record { ordered = tt; own_ref = λ k p h. cc; current = refl }

  -- The ways in which `register` goes.
  register-cases :
      (r : PolicyRegistry F) (p : SlicePolicyV1 F)
      → ((q : SlicePolicyV1 F) × (get (from_policy fl cr p) r.policies ≡ some q)
          × (register fl cr r p ≡ (from_policy fl cr p, r)))
        ⊎ ((get (from_policy fl cr p) r.policies ≡ none)
            × (register fl cr r p ≡ (
              from_policy fl cr p,
              update_fingerprint fl cr
                  (record r { policies = insert (from_policy fl cr p) p r.policies }),
            )))
  unfolding register
  register-cases r p = elim (Option-cases (get (from_policy fl cr p) r.policies)) [
    | inl fresh ↦ inr (fresh, ground (arith, fresh))
    | inr (q, old) ↦ inl (q, old, ground (arith, old))
  ]

  get-insert :
      (k j : PolicyRef) (p : SlicePolicyV1 F) (m : List (PolicyRef × SlicePolicyV1 F))
      → IsOrdered m
      → ((j ≡ k) × (get j (insert k p m) ≡ some p))
        ⊎ ((ref_cmp j k ≢ eq) × (get j (insert k p m) ≡ get j m))
  get-insert k j p m h =
      ⊎_elim
        (λ e.
          let same = ref_cmp-IsOrd.eq_of_cmp j k e in
          inl (same, subst (λ i. get i (insert k p m) ≡ some p) (sym same) (get-insert_same k p m)))
        (λ other. inr (other, get-insert_other k j p m other h)) (is_eq (ref_cmp j k))

  register-WellFormed :
      (r : PolicyRegistry F) (p : SlicePolicyV1 F)
      → WellFormed r
      → WellFormed (register fl cr r p).1
  unfolding update_fingerprint
  register-WellFormed r p wf =
      let k = from_policy fl cr p in
      ⊎_elim
        (λ (q, old, e). subst (λ (x : PolicyRef × PolicyRegistry F). WellFormed x.1) (sym e) wf)
        (λ (fresh, e).
          subst (λ (x : PolicyRef × PolicyRegistry F). WellFormed x.1) (sym e)
            (record {
              ordered = insert-IsOrdered k p r.policies wf.ordered;
              own_ref = λ j q found.
                  ⊎_elim (λ (same, here). ground (arith, same, here, found))
                    (λ (other, there). wf.own_ref j q (sym there ∙ found))
                    (get-insert k j p r.policies wf.ordered);
              current = refl;
            }))
        (register-cases r p)

  -- Every registry that `new` and `register` build is in order, holds each policy under the reference
  -- made from it, and has the fingerprint of its references.
  pub registry-WellFormed : {r : PolicyRegistry F} → Built r → WellFormed r
  registry-WellFormed empty = new-WellFormed
  registry-WellFormed (registered p b) = register-WellFormed _ p (registry-WellFormed b)

  -- A reference that resolves goes on resolving to the same policy, whatever is registered later.
  pub resolve-register_old :
      {r : PolicyRegistry F} (p q : SlicePolicyV1 F) (k : PolicyRef)
      → Built r
      → resolve r k ≡ some q
      → resolve (register fl cr r p).1 k ≡ some q
  unfolding resolve update_fingerprint
  resolve-register_old {r} p q k b found =
      let wf = registry-WellFormed b in
      ⊎_elim (λ (old, there, e). ap (λ x. get k x.1.policies) e ∙ found)
        (λ (fresh, e).
          ap (λ x. get k x.1.policies) e
          ∙ ⊎_elim (λ (same, here). absurd (ground (arith, same, fresh, found)))
              (λ (other, there). there ∙ found)
              (get-insert (from_policy fl cr p) k p r.policies wf.ordered))
        (register-cases r p)

  -- The reference that `register` returns resolves to a policy with that reference: the registered
  -- one, or the older one with the same hash.
  pub resolve-register :
      {r : PolicyRegistry F} (p : SlicePolicyV1 F)
      → Built r
      → let step = register fl cr r p in
        (q : SlicePolicyV1 F) × (resolve step.1 step.0 ≡ some q) × (from_policy fl cr q ≡ step.0)
  unfolding resolve update_fingerprint
  resolve-register {r} p b =
      let k = from_policy fl cr p in
      let Answer = λ (x : PolicyRef × PolicyRegistry F).
        (q : SlicePolicyV1 F) × (get x.0 x.1.policies ≡ some q) × (from_policy fl cr q ≡ x.0) in
      ⊎_elim
        (λ (old, there, e).
          subst Answer (sym e) (old, there, (registry-WellFormed b).own_ref k old there))
        (λ (fresh, e). subst Answer (sym e) (p, get-insert_same k p r.policies, refl))
        (register-cases r p)

  register-ref :
      (r : PolicyRegistry F) (p : SlicePolicyV1 F) → (register fl cr r p).0 ≡ from_policy fl cr p
  register-ref r p =
      ⊎_elim (λ (old, there, e). ap (λ x. x.0) e) (λ (fresh, e). ap (λ x. x.0) e)
        (register-cases r p)

  -- To register a policy again returns the same reference and changes nothing.
  pub register_again :
      {r : PolicyRegistry F} (p : SlicePolicyV1 F)
      → Built r
      → let step = register fl cr r p in register fl cr step.1 p ≡ step
  unfolding resolve
  register_again {r} p b =
      let step = register fl cr r p in
      let (q, found, own) = resolve-register p b in
      ⊎_elim (λ (old, there, e). e ∙ ap (λ k. (k, step.1)) (sym (register-ref r p)))
        (λ (fresh, e).
          let there = ap (λ k. get k step.1.policies) (register-ref r p) in
          absurd (ground (arith, fresh, found, there)))
        (register-cases step.1 p)

  -- Two policies with different references may be registered in either order: the registry, with its
  -- fingerprint, is the same.
  pub register_comm :
      {r : PolicyRegistry F} (p q : SlicePolicyV1 F)
      → Built r
      → from_policy fl cr p ≢ from_policy fl cr q
      → (register fl cr (register fl cr r p).1 q).1 ≡ (register fl cr (register fl cr r q).1 p).1
  unfolding register update_fingerprint
  register_comm {r} p q b other =
      let kp = from_policy fl cr p in
      let kq = from_policy fl cr q in
      let ordered = (registry-WellFormed b).ordered in
      let p_other : ref_cmp kp kq ≢ eq = λ e. other (ref_cmp-IsOrd.eq_of_cmp kp kq e) in
      let q_other : ref_cmp kq kp ≢ eq = λ e. other (sym (ref_cmp-IsOrd.eq_of_cmp kq kp e)) in
      let after_p = get-insert_other kp kq p r.policies q_other ordered in
      let after_q = get-insert_other kq kp q r.policies p_other ordered in
      let both = insert_comm kq kp q p r.policies q_other in
      elim (Option-cases (get kp r.policies)) [
        | inl p_new ↦ elim (Option-cases (get kq r.policies)) [
          | inl q_new ↦ ground (arith, p_new, q_new, after_p, after_q, both)
          | inr (y, q_old) ↦ ground (arith, p_new, q_old, after_p, after_q)
        ]
        | inr (x, p_old) ↦ elim (Option-cases (get kq r.policies)) [
          | inl q_new ↦ ground (arith, p_old, q_new, after_p, after_q)
          | inr (y, q_old) ↦ ground (arith, p_old, q_old, after_p, after_q)
        ]
      ]
