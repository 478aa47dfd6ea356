-- ===== src/Store/Memory/Answers.antt =====
-- What the queries of src/store/memory.rs answer, in terms of the edges and turns of the store.
pub mod Siblings
use mathlib.Core.List.Permᴰ
use admissibility_kernel.Base.{
  or_empty, ℕ, ◌≡◌, refl, sym, ap, subst, ◌∙◌, ◌⊎◌, inl, inr, List, [], ◌∷◌, ◌++◌, map, Bool, true,
  false, ◌&&◌, ◌||◌, Option, none, some, Result, ok, contains, filter, length, Permᴰ, Bool-cases,
  ◌==◌, if◌then◌else◌, arith,
}
use admissibility_kernel.Base.Order.{nat_ord}
use admissibility_kernel.Base.Sort.{sort_by, sort_by-perm}
use admissibility_kernel.Base.Sort.Unique.{sort_by-eq_of_perm}
use admissibility_kernel.Base.Tree.{
  get, insert, set_of, contains-set_of, Increasing, Increasing-ext, get-insert_same,
  get-insert_other,
}
use admissibility_kernel.Crates.{Crypto, Floats}
use admissibility_kernel.Types.Turn.{TurnId, TurnSnapshot}
use admissibility_kernel.Types.Edge.{Edge, edge_cmp, edge_ord}
use admissibility_kernel.Slicer.Invariant.{IsHonest}
use admissibility_kernel.Store.Memory.{
  InMemoryGraphStore, add_turn, add_edge, get_turn, get_children, get_parents, get_edges,
  graph_store,
}
use admissibility_kernel.Store.Memory.Mirror.{
  Built, Built-WellFormed, WellFormed, has_edge, edge_added,
}

-- An edge between two of the turns.
abbrev pub is_inside : List TurnId → Edge → Bool
is_inside ids e = contains ids e.parent && contains ids e.child

pub filter-ext :
    (p q : Edge → Bool) (xs : List Edge) → ((e : Edge) → p e ≡ q e) → filter p xs ≡ filter q xs
filter-ext p q [] h = refl
filter-ext p q (x ∷ xs) h = ground (arith, h x, filter-ext p q xs h)

filter-append :
    (p : Edge → Bool) (xs ys : List Edge) → filter p (xs ++ ys) ≡ filter p xs ++ filter p ys
filter-append p [] ys = refl
filter-append p (x ∷ xs) ys = ground (arith, filter-append p xs ys)

keep-perm :
    (keep : Bool) (x : Edge) {xs ys : List Edge}
    → Permᴰ xs ys
    → Permᴰ (if keep then x ∷ xs else xs) (if keep then x ∷ ys else ys)
keep-perm true x h = Permᴰ.cons refl h
keep-perm false x h = h

keep-swap :
    (k l : Bool) (x y : Edge) (xs : List Edge)
    → Permᴰ
        (if k then x ∷ (if l then y ∷ xs else xs) else (if l then y ∷ xs else xs))
        (if l then y ∷ (if k then x ∷ xs else xs) else (if k then x ∷ xs else xs))
keep-swap true true x y xs = Permᴰ.swap refl refl
keep-swap true false x y xs = Permᴰ.refl _
keep-swap false true x y xs = Permᴰ.refl _
keep-swap false false x y xs = Permᴰ.refl xs

filter-perm :
    (p : Edge → Bool) {xs ys : List Edge} → Permᴰ xs ys → Permᴰ (filter p xs) (filter p ys)
filter-perm p Permᴰ.nil = Permᴰ.nil
filter-perm p (Permᴰ.cons {a} {l₁ = l} {l₂ = m} e h) =
    subst (λ x. Permᴰ (filter p (a ∷ l)) (filter p (x ∷ m))) e (keep-perm (p a) a (filter-perm p h))
filter-perm p (Permᴰ.swap {a} {b} {b' = b'} {l = l} e f) =
    subst (λ x. Permᴰ (filter p (a ∷ b ∷ l)) (filter p (x ∷ b' ∷ l))) f
      (subst (λ x. Permᴰ (filter p (a ∷ b ∷ l)) (filter p (b ∷ x ∷ l))) e
        (keep-swap (p a) (p b) a b (filter p l)))
filter-perm p (Permᴰ.trans h k) = Permᴰ.trans (filter-perm p h) (filter-perm p k)

has_edge-perm : (p c : TurnId) {xs ys : List Edge} → Permᴰ xs ys → has_edge xs p c ≡ has_edge ys p c
has_edge-perm p c Permᴰ.nil = refl
has_edge-perm p c (Permᴰ.cons e h) = ground (arith, e, has_edge-perm p c h)
has_edge-perm p c (Permᴰ.swap e f) = ground (arith, e, f)
has_edge-perm p c (Permᴰ.trans h k) = has_edge-perm p c h ∙ has_edge-perm p c k

module _ {F : Type 0} where
  -- A turn is found under its identifier after it was added, in place of one with the same
  -- identifier, and all other turns are found as before.
  pub get_turn-add_turn :
      {s : InMemoryGraphStore F} (turn : TurnSnapshot F) (id : TurnId)
      → Built s
      → ((id ≡ turn.id) × (get_turn (add_turn s turn) id ≡ some turn))
        ⊎ ((id == turn.id ≡ false) × (get_turn (add_turn s turn) id ≡ get_turn s id))
  unfolding get_turn add_turn
  get_turn-add_turn {s} turn id b = elim (Bool-cases (id == turn.id)) [
    | inl same ↦
        let e : id ≡ turn.id = ground (arith, same) in
        inl (
          e,
          subst (λ i. get i (insert turn.id turn s.turns) ≡ some turn) (sym e)
              (get-insert_same turn.id turn s.turns),
        )
    | inr other ↦ inr (
      other,
      get-insert_other turn.id id turn s.turns (λ e. ground (arith, other))
          (Built-WellFormed b).turns_ordered,
    )
  ]

  -- A built store answers a request for a turn with that turn.
  pub graph_store-IsHonest :
      (cr : Crypto F) (fl : Floats F) {s : InMemoryGraphStore F}
      → Built s
      → IsHonest (graph_store fl cr s)
  unfolding get_turn
  graph_store-IsHonest cr fl b id turn h = (Built-WellFormed b).own_key id turn (ground arith)

  pub get_edges-perm :
      (s : InMemoryGraphStore F) (ids : List TurnId)
      → Permᴰ (get_edges s ids) (filter (is_inside ids) s.edges)
  unfolding get_edges
  get_edges-perm s ids =
      subst (Permᴰ (get_edges s ids))
        (filter-ext _ (is_inside ids) s.edges
          (λ e. ground (arith, contains-set_of ids e.parent, contains-set_of ids e.child)))
        (sort_by-perm edge_cmp _)

  -- `get_edges` answers the edges between the given turns, every edge as often as it was added, in
  -- an order that depends on nothing but those edges.
  pub get_edges-filter :
      (s : InMemoryGraphStore F) (ids : List TurnId)
      → Permᴰ (get_edges s ids) (filter (is_inside ids) s.edges)
        × (get_edges s ids ≡ sort_by edge_cmp (filter (is_inside ids) s.edges))
  unfolding get_edges
  get_edges-filter s ids = (
    get_edges-perm s ids,
    ap (sort_by edge_cmp) (
        filter-ext _ (is_inside ids) s.edges
          (λ e. ground (arith, contains-set_of ids e.parent, contains-set_of ids e.child))),
  )

  edges-swap :
      (s : InMemoryGraphStore F) (d e : Edge)
      → Permᴰ (add_edge (add_edge s d) e).edges (add_edge (add_edge s e) d).edges
  unfolding add_edge
  edges-swap s d e = Permᴰ.trans (Permᴰ.append_comm (s.edges ++ d ∷ []) (e ∷ [])) (
      Permᴰ.trans (Permᴰ.cons refl (Permᴰ.append_comm s.edges (d ∷ []))) (
        Permᴰ.trans (Permᴰ.swap refl refl) (
          Permᴰ.trans (Permᴰ.cons refl (Permᴰ.append_comm (e ∷ []) s.edges))
            (Permᴰ.append_comm (d ∷ []) (s.edges ++ e ∷ [])))))

  -- The order in which two edges are added does not show in the answers of a built store.
  pub add_edge_comm :
      {s : InMemoryGraphStore F} (d e : Edge)
      → Built s
      → let t = add_edge (add_edge s d) e in
        let u = add_edge (add_edge s e) d in
        ((id : TurnId) → get_children t id ≡ get_children u id)
        × ((id : TurnId) → get_parents t id ≡ get_parents u id)
        × ((ids : List TurnId) → get_edges t ids ≡ get_edges u ids)
  unfolding get_children get_parents get_edges
  add_edge_comm {s} d e b =
      let t_wf = Built-WellFormed (edge_added e (edge_added d b)) in
      let u_wf = Built-WellFormed (edge_added d (edge_added e b)) in
      let p = edges-swap s d e in
      (
        λ id. Increasing-ext _ _ (t_wf.children_increasing id) (u_wf.children_increasing id) (λ c.
            t_wf.children_of_edges id c ∙ has_edge-perm id c p ∙ sym (u_wf.children_of_edges id c)),
        λ id. Increasing-ext _ _ (t_wf.parents_increasing id) (u_wf.parents_increasing id) (λ v.
            t_wf.parents_of_edges id v ∙ has_edge-perm v id p ∙ sym (u_wf.parents_of_edges id v)),
        λ ids. sort_by-eq_of_perm {K = Edge} (λ x. x) (filter-perm _ p) (λ x y _ _ same. same),
      )
