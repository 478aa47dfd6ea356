-- ===== src/Slicer/Rules.antt =====
-- How a loop of src/slicer.rs keeps a property of its variables, and the walks that it follows.
use admissibility_kernel.Base.{
  ℕ, ◌+◌, ◌≡◌, inl, inr, List, [], ◌∷◌, true, false, Option, Result, ok, err, ◌>>=◌, contains, ltb,
  Bool-cases, Result-cases, >>=-eq-ok, arith,
}
use admissibility_kernel.Crates.{Floats}
use admissibility_kernel.Types.Turn.{TurnId, TurnSnapshot}
use admissibility_kernel.Policy.V1.{SlicePolicyV1}
use admissibility_kernel.Store.{GraphStore}
use admissibility_kernel.Slicer.{
  Expansion, from_store, push_turn, visit, visit_all, expand_siblings, expand,
}

module _ {F E : Type 0} (store : GraphStore F E) where
  pub from_store-eq-ok :
      {A : Type 0} (r : Result E A) {a : A} → from_store store r ≡ ok a → r ≡ ok a
  unfolding from_store
  from_store-eq-ok (ok b) h = ground arith
  from_store-eq-ok (err e) h = cc

  -- A parent or a child, as the store lists them.
  pub data Linked (u v : TurnId) : Type 0 where
    parent :
        (parents : List TurnId)
        → store.get_parents u ≡ ok parents
        → contains parents v ≡ true
        → Linked u v
    child :
        (children : List TurnId)
        → store.get_children u ≡ ok children
        → contains children v ≡ true
        → Linked u v

  -- A sibling, among the first that the policy allows.
  pub data Sibling (policy : SlicePolicyV1 F) (u v : TurnId) : Type 0 where
    sibling :
        (siblings : List TurnId)
        → policy.include_siblings ≡ true
        → store.get_siblings u policy.max_siblings_per_node ≡ ok siblings
        → contains siblings v ≡ true
        → Sibling policy u v

  -- The walks from the anchor, with their cost: a link counts 1, and a step to a sibling nothing.
  pub data Walk (policy : SlicePolicyV1 F) (anchor : TurnId) : TurnId → ℕ → Type 0 where
    here : {v : TurnId} {d : ℕ} → v ≡ anchor → d ≡ 0 → Walk policy anchor v d
    link :
        {u v : TurnId} {d e : ℕ}
        → Walk policy anchor u d
        → Linked u v
        → e ≡ d + 1
        → Walk policy anchor v e
    aside :
        {u v : TurnId} {d : ℕ}
        → Walk policy anchor u d
        → Sibling policy u v
        → Walk policy anchor v d

module _ {F E : Type 0} (fl : Floats F) (store : GraphStore F E) (policy : SlicePolicyV1 F)
    (P : Expansion F → Type 0) where
  -- To mark `id` as visited, and to push its turn at a distance, keeps `P`.
  abbrev pub Pushes : ℕ → TurnId → Type 0
  Pushes d id =
      (s : Expansion F) (turn : Option (TurnSnapshot F))
      → contains s.visited id ≡ false
      → store.get_turn id ≡ ok turn
      → P s
      → P (push_turn fl store policy d turn (record s { visited = id ∷ s.visited }))

  visit_rule :
      (d : ℕ) (id : TurnId) (s t : Expansion F)
      → Pushes d id
      → visit fl store policy d id s ≡ ok t
      → P s
      → P t
  unfolding visit
  visit_rule d id s t step h p = elim (Bool-cases (contains s.visited id)) [
    | inl old ↦ ground (arith, old)
    | inr new ↦ elim (Result-cases (store.get_turn id)) [
      | inl (turn, found) ↦ ground (arith, new, found, step s turn new found p)
      | inr (e, bad) ↦ absurd (ground (arith, new, bad))
    ]
  ]

  pub visit_all_rule :
      (d : ℕ) (ids : List TurnId) (s t : Expansion F)
      → ((id : TurnId) → contains ids id ≡ true → Pushes d id)
      → visit_all fl store policy d ids s ≡ ok t
      → P s
      → P t
  unfolding visit_all
  visit_all_rule d [] s t step h p = ground arith
  visit_all_rule d (id ∷ ids) s t step h p = elim (Result-cases (visit fl store policy d id s)) [
    | inl (m, first) ↦
        visit_all_rule d ids m t (λ v in_ids. step v (ground arith)) (ground (arith, first))
          (visit_rule d id s m (step id (ground arith)) first p)
    | inr (e, bad) ↦ absurd (ground (arith, bad))
  ]

  pub expand_siblings_rule :
      (d : ℕ) (id : TurnId) (s t : Expansion F)
      → ((v : TurnId) → Sibling store policy id v → Pushes d v)
      → expand_siblings fl store policy d id s ≡ ok t
      → P s
      → P t
  unfolding expand_siblings
  expand_siblings_rule d id s t step h p = elim (Bool-cases policy.include_siblings) [
    | inr off ↦ ground (arith, off)
    | inl on ↦ elim (Bool-cases (ltb 0 policy.max_siblings_per_node)) [
      | inr off ↦ ground (arith, on, off)
      | inl some_allowed ↦
          let asked = from_store store (store.get_siblings id policy.max_siblings_per_node) in
          let h' : (asked >>= λ ids. visit_all fl store policy d ids s) ≡ ok t =
            ground (arith, on, some_allowed) in
          let (ids, found, rest) = >>=-eq-ok asked (λ ids. visit_all fl store policy d ids s) h' in
          visit_all_rule d ids s t
            (λ v in_ids. step v (sibling ids on (from_store-eq-ok store _ found) in_ids)) rest p
    ]
  ]

  -- What holds before a node is expanded, and is kept by the visit of each neighbour at its
  -- distance, holds after it.
  pub expand_rule :
      (d next : ℕ) (id : TurnId) (s t : Expansion F)
      → ((v : TurnId) → Linked store id v → Pushes next v)
      → ((v : TurnId) → Sibling store policy id v → Pushes d v)
      → expand fl store policy d next id s ≡ ok t
      → P s
      → P t
  unfolding expand
  expand_rule d next id s t links siblings h p =
      let (ps, found_ps, r1) = >>=-eq-ok (from_store store (store.get_parents id)) _ h in
      let (s1, h1, r2) = >>=-eq-ok (visit_all fl store policy next ps s) _ r1 in
      let (cs, found_cs, r3) = >>=-eq-ok (from_store store (store.get_children id)) _ r2 in
      let (s2, h2, r4) = >>=-eq-ok (visit_all fl store policy next cs s1) _ r3 in
      let p1 =
        visit_all_rule next ps s s1
          (λ v in_ps. links v (parent ps (from_store-eq-ok store _ found_ps) in_ps)) h1 p in
      let p2 =
        visit_all_rule next cs s1 s2
          (λ v in_cs. links v (child cs (from_store-eq-ok store _ found_cs) in_cs)) h2 p1 in
      expand_siblings_rule d id s2 t siblings r4 p2
