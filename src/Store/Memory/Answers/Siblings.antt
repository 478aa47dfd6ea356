-- ===== src/Store/Memory/Answers/Siblings.antt =====
-- `get_siblings` of src/store/memory.rs against the edges and turns of the store.
use mathlib.Core.List.Permᴰ
use admissibility_kernel.Base.{
  or_empty, ℕ, ◌≤◌, ◌<◌, ◌≡◌, refl, sym, subst, ◌∙◌, inl, inr, List, [], ◌∷◌, map, Bool, true,
  false, not, ◌&&◌, ◌||◌, Option, none, some, contains, Distinct, filter_map, length, Permᴰ,
  Bool-cases, Option-cases, ◌==◌, arith,
}
use admissibility_kernel.Base.Order.{nat_ord}
use admissibility_kernel.Base.Take.{contains-take, Distinct-take, length-take, take_all}
use admissibility_kernel.Base.Membership.{contains-perm, Distinct-perm}
use admissibility_kernel.Base.Sort.{sort_by-perm}
use admissibility_kernel.Base.Tree.{
  get, insert_id, contains-insert_id, Increasing, insert_id-Increasing, Increasing-Distinct,
}
use admissibility_kernel.Crates.{Floats}
use admissibility_kernel.Types.Turn.{TurnId, TurnSnapshot}
use admissibility_kernel.Store.Memory.{
  InMemoryGraphStore, add_others, gather, sibling_list, sibling_cmp, get_siblings, get_turn,
}
use admissibility_kernel.Store.Memory.Mirror.{Built, Built-WellFormed, has_edge}

-- `iter().any(p)`
abbrev any : (TurnId → Bool) → List TurnId → Bool
any p [] = false
any p (x ∷ xs) = p x || any p xs

any-witness :
    (p : TurnId → Bool) (xs : List TurnId)
    → any p xs ≡ true
    → (x : TurnId) × (contains xs x ≡ true) × (p x ≡ true)
any-witness p [] h = cc
any-witness p (x ∷ xs) h = elim (Bool-cases (p x)) [
  | inl here ↦ (x, ground arith, here)
  | inr later ↦
      let (y, in_xs, py) = any-witness p xs (ground (arith, later)) in
      (y, ground (arith, in_xs), py)
]

any-member :
    (p : TurnId → Bool) (xs : List TurnId) (x : TurnId)
    → contains xs x ≡ true
    → p x ≡ true
    → any p xs ≡ true
any-member p [] x h k = cc
any-member p (y ∷ ys) x h k = elim (Bool-cases (x == y)) [
  | inl here ↦
      let e : x ≡ y = ground (arith, here) in
      let py = subst (λ z. p z ≡ true) e k in ground (arith, py)
  | inr later ↦ let rest = any-member p ys x (ground (arith, later)) k in ground (arith, rest)
]

contains-add_others :
    (id : TurnId) (children acc : List TurnId) (v : TurnId)
    → contains (add_others id children acc) v
      ≡ contains acc v || (not (v == id) && contains children v)
unfolding add_others
contains-add_others id [] acc v = ground arith
contains-add_others id (c ∷ cs) acc v = elim (Bool-cases (c == id)) [
  | inl own ↦ ground (arith, own, contains-add_others id cs acc v)
  | inr other ↦
      ground
        (arith, other, contains-add_others id cs (insert_id c acc) v, contains-insert_id c acc v)
]

contains-gather :
    (id : TurnId) (m : List (TurnId × List TurnId)) (parents acc : List TurnId) (v : TurnId)
    → contains (gather id m parents acc) v
      ≡ contains acc v || (not (v == id) && any (λ p. contains (or_empty (get p m)) v) parents)
unfolding gather
contains-gather id m [] acc v = ground arith
contains-gather id m (p ∷ ps) acc v = ground (
  arith,
  contains-gather id m ps (add_others id (or_empty (get p m)) acc) v,
  contains-add_others id (or_empty (get p m)) acc v,
)

add_others-Increasing :
    (id : TurnId) (children acc : List TurnId)
    → Increasing acc
    → Increasing (add_others id children acc)
unfolding add_others
add_others-Increasing id [] acc h = h
add_others-Increasing id (c ∷ cs) acc h = elim (Bool-cases (c == id)) [
  | inl own ↦ ground (arith, own, add_others-Increasing id cs acc h)
  | inr other ↦
      ground
        (arith, other, add_others-Increasing id cs (insert_id c acc) (insert_id-Increasing c acc h))
]

gather-Increasing :
    (id : TurnId) (m : List (TurnId × List TurnId)) (parents acc : List TurnId)
    → Increasing acc
    → Increasing (gather id m parents acc)
unfolding gather
gather-Increasing id m [] acc h = h
gather-Increasing id m (p ∷ ps) acc h =
    gather-Increasing id m ps _ (add_others-Increasing id (or_empty (get p m)) acc h)

abbrev is_there : {F : Type 0} → Option (TurnSnapshot F) → Bool
is_there none = false
is_there (some t) = true

module _ {F : Type 0} where
  abbrev with_salience : InMemoryGraphStore F → TurnId → Option (TurnId × F)
  with_salience s sid = elim (get sid s.turns) [ none ↦ none | some t ↦ some (sid, t.salience) ]

  contains-with_salience :
      (s : InMemoryGraphStore F) (ids : List TurnId) (v : TurnId)
      → contains (map (λ e. e.0) (filter_map (with_salience s) ids)) v
        ≡ contains ids v && is_there (get v s.turns)
  contains-with_salience s [] v = refl
  contains-with_salience s (x ∷ ids) v = elim (Option-cases (get x s.turns)) [
    | inl gone ↦ elim (Bool-cases (v == x)) [
      | inl same ↦
          let e : v ≡ x = ground (arith, same) in
          let gone' = subst (λ i. get i s.turns ≡ none) (sym e) gone in
          ground (arith, gone, gone', contains-with_salience s ids v)
      | inr other ↦ ground (arith, gone, other, contains-with_salience s ids v)
    ]
    | inr (t, there) ↦ elim (Bool-cases (v == x)) [
      | inl same ↦
          let e : v ≡ x = ground (arith, same) in
          let there' = subst (λ i. get i s.turns ≡ some t) (sym e) there in
          ground (arith, there, there', same)
      | inr other ↦ ground (arith, there, other, contains-with_salience s ids v)
    ]
  ]

  Distinct-with_salience :
      (s : InMemoryGraphStore F) (ids : List TurnId)
      → Distinct ids
      → Distinct (map (λ e. e.0) (filter_map (with_salience s) ids))
  Distinct-with_salience s [] h = tt
  Distinct-with_salience s (x ∷ ids) h = elim (Option-cases (get x s.turns)) [
    | inl gone ↦ ground (arith, gone, Distinct-with_salience s ids)
    | inr (t, there) ↦
        ground (arith, there, Distinct-with_salience s ids, contains-with_salience s ids x)
  ]

  -- Another turn of the store with a parent of `id`.
  abbrev pub IsSibling : InMemoryGraphStore F → TurnId → TurnId → Type 0
  IsSibling s id v =
      (v == id ≡ false)
      × ((p : TurnId) × (has_edge s.edges p id ≡ true) × (has_edge s.edges p v ≡ true))
      × ((t : TurnSnapshot F) × (get_turn s v ≡ some t))

  module _ (fl : Floats F) {s : InMemoryGraphStore F} (b : Built s) (id : TurnId) where
    abbrev gathered : List TurnId
    gathered = gather id s.children (or_empty (get id s.parents)) []

    list-perm :
        Permᴰ
          (map (λ e. e.0) (sibling_list fl s id))
          (map (λ e. e.0) (filter_map (with_salience s) gathered))
    unfolding sibling_list
    list-perm = Permᴰ.map (λ (e : TurnId × F). e.0) (sort_by-perm (sibling_cmp fl) _)

    in_list-IsSibling :
        (v : TurnId) → contains (map (λ e. e.0) (sibling_list fl s id)) v ≡ true → IsSibling s id v
    unfolding get_turn
    in_list-IsSibling v h =
        let wf = Built-WellFormed b in
        let members = sym h ∙ contains-perm v list-perm ∙ contains-with_salience s gathered v in
        let chosen = contains-gather id s.children (or_empty (get id s.parents)) [] v in
        let (p, p_of_id, p_of_v) =
          any-witness (λ p. contains (or_empty (get p s.children)) v) (or_empty (get id s.parents))
            (ground (arith, members, chosen)) in
        elim (Option-cases (get v s.turns)) [
          | inl gone ↦ absurd (ground (arith, members, gone))
          | inr (t, there) ↦ (
            ground (arith, members, chosen),
            (p, sym (wf.parents_of_edges id p) ∙ p_of_id, sym (wf.children_of_edges p v) ∙ p_of_v),
            (t, there),
          )
        ]

    IsSibling-in_list :
        (v : TurnId) → IsSibling s id v → contains (map (λ e. e.0) (sibling_list fl s id)) v ≡ true
    unfolding get_turn
    IsSibling-in_list v (other, (p, p_of_id, p_of_v), (t, there)) =
        let wf = Built-WellFormed b in
        let found =
          any-member (λ p. contains (or_empty (get p s.children)) v) (or_empty (get id s.parents)) p
            (wf.parents_of_edges id p ∙ p_of_id) (wf.children_of_edges p v ∙ p_of_v) in
        contains-perm v list-perm
        ∙ contains-with_salience s gathered v
        ∙ ground (
          arith,
          contains-gather id s.children (or_empty (get id s.parents)) [] v,
          found,
          there,
          other,
        )

    -- Of a built store: `get_siblings` answers at most `limit` turns, each once, and each a sibling.
    -- If it answers fewer than `limit`, it answers every sibling.
    pub get_siblings_lem :
        (limit : ℕ)
        → (length (get_siblings fl s id limit) ≤ limit)
          × Distinct (get_siblings fl s id limit)
          × ((v : TurnId) → contains (get_siblings fl s id limit) v ≡ true → IsSibling s id v)
          × (length (get_siblings fl s id limit) < limit
              → (v : TurnId) → IsSibling s id v
              → contains (get_siblings fl s id limit) v ≡ true)
    unfolding get_siblings
    get_siblings_lem limit =
        let xs = sibling_list fl s id in
        let once = Distinct-perm (Permᴰ.symm list-perm) (
          Distinct-with_salience s gathered (
            Increasing-Distinct gathered
              (gather-Increasing id s.children (or_empty (get id s.parents)) [] tt))) in
        (
          length-take (λ e. e.0) limit xs,
          Distinct-take (λ e. e.0) limit xs once,
          λ v h. in_list-IsSibling v (contains-take (λ e. e.0) limit xs v h),
          λ few v sib.
              subst (λ l. contains (map (λ e. e.0) l) v ≡ true)
                (sym (take_all (λ e. e.0) limit xs few)) (IsSibling-in_list v sib),
        )
