-- ===== src/Slicer/Seen.antt =====
-- Which turns an expansion of src/slicer.rs marks as visited.
use admissibility_kernel.Base.{
  ℕ, ◌≡◌, inl, inr, List, [], ◌∷◌, true, none, some, ok, contains, Bool-cases, Result-cases, ◌==◌,
  >>=-eq-ok, arith,
}
use admissibility_kernel.Crates.{Floats}
use admissibility_kernel.Types.Turn.{TurnId}
use admissibility_kernel.Policy.V1.{SlicePolicyV1}
use admissibility_kernel.Store.{GraphStore}
use admissibility_kernel.Slicer.{Expansion, from_store, push_turn, visit, visit_all, expand}
use admissibility_kernel.Slicer.Rules.{
  Linked, parent, child, Pushes, from_store-eq-ok, visit_all_rule, expand_siblings_rule,
}

module _ {F E : Type 0} (fl : Floats F) (store : GraphStore F E) (policy : SlicePolicyV1 F) where
  abbrev Seen : TurnId → Expansion F → Type 0
  Seen v s = contains s.visited v ≡ true

  push-Seen : (v : TurnId) (d : ℕ) (id : TurnId) → Pushes fl store policy (Seen v) d id
  unfolding push_turn
  push-Seen v d id s none new found seen = ground arith
  push-Seen v d id s (some turn) new found seen = ground arith

  visit-Seen :
      (d : ℕ) (id : TurnId) (s t : Expansion F) → visit fl store policy d id s ≡ ok t → Seen id t
  unfolding visit push_turn
  visit-Seen d id s t h = elim (Bool-cases (contains s.visited id)) [
    | inl old ↦ ground (arith, old)
    | inr new ↦ elim (Result-cases (from_store store (store.get_turn id))) [
      | inr (e, bad) ↦ absurd (ground (arith, new, bad))
      | inl (none, found) ↦ ground (arith, new, found)
      | inl (some turn, found) ↦ ground (arith, new, found)
    ]
  ]

  visit_all-Seen :
      (d : ℕ) (ids : List TurnId) (s t : Expansion F) (v : TurnId)
      → visit_all fl store policy d ids s ≡ ok t
      → contains ids v ≡ true
      → Seen v t
  unfolding visit_all
  visit_all-Seen d [] s t v h in_ids = cc
  visit_all-Seen d (id ∷ ids) s t v h in_ids =
      let (m, first, rest) = >>=-eq-ok (visit fl store policy d id s) _ h in
      elim (Bool-cases (v == id)) [
        | inl here ↦
            visit_all_rule fl store policy (Seen v) d ids m t (λ w _. push-Seen v d w) rest
              (ground (arith, here, visit-Seen d id s m first))
        | inr later ↦ visit_all-Seen d ids m t v rest (ground (arith, later))
      ]

  -- After an expansion all parents and children are visited.
  pub expand-Seen :
      (d next : ℕ) (id : TurnId) (s t : Expansion F) (v : TurnId)
      → expand fl store policy d next id s ≡ ok t
      → Linked store id v
      → contains t.visited v ≡ true
  unfolding expand
  expand-Seen d next id s t v h near =
      let (ps, found_ps, r1) = >>=-eq-ok (from_store store (store.get_parents id)) _ h in
      let (s1, h1, r2) = >>=-eq-ok (visit_all fl store policy next ps s) _ r1 in
      let (cs, found_cs, r3) = >>=-eq-ok (from_store store (store.get_children id)) _ r2 in
      let (s2, h2, r4) = >>=-eq-ok (visit_all fl store policy next cs s1) _ r3 in
      let later =
        expand_siblings_rule fl store policy (Seen v) d id s2 t (λ w _. push-Seen v d w) r4 in
      elim near [
        | parent ps' asked in_ps ↦
            let same = from_store-eq-ok store _ found_ps in
            let in_ps' : contains ps v ≡ true = ground (arith, asked, same) in
            later (
              visit_all_rule fl store policy (Seen v) next cs s1 s2 (λ w _. push-Seen v next w) h2
                (visit_all-Seen next ps s s1 v h1 in_ps'))
        | child cs' asked in_cs ↦
            let same = from_store-eq-ok store _ found_cs in
            let in_cs' : contains cs v ≡ true = ground (arith, asked, same) in
            later (visit_all-Seen next cs s1 s2 v h2 in_cs')
      ]
