-- ===== src/Store/Memory/Mirror.antt =====
-- The maps of src/store/memory.rs are two views of one list of edges.
use admissibility_kernel.Base.{
  or_empty, ◌≡◌, refl, sym, subst, ◌∙◌, inl, inr, List, [], ◌∷◌, ◌++◌, Bool, false, ◌&&◌, ◌||◌,
  some, contains, Bool-cases, ◌==◌, arith,
}
use admissibility_kernel.Base.Order.{nat_ord}
use admissibility_kernel.Base.Tree.{
  get, insert, insert_id, IsOrdered, insert-IsOrdered, get-insert_same, get-insert_other,
  contains-insert_id, Increasing, insert_id-Increasing,
}
use admissibility_kernel.Types.Turn.{TurnId, TurnSnapshot}
use admissibility_kernel.Types.Edge.{Edge}
use admissibility_kernel.Store.Memory.{
  InMemoryGraphStore, link, new, add_turn, add_edge, get_parents, get_children,
}

-- Some edge leads from `p` to `c`.
abbrev pub has_edge : List Edge → TurnId → TurnId → Bool
has_edge [] p c = false
has_edge (e ∷ es) p c = p == e.parent && c == e.child || has_edge es p c

pub has_edge-append :
    (xs : List Edge) (e : Edge) (p c : TurnId)
    → has_edge (xs ++ e ∷ []) p c ≡ has_edge xs p c || (p == e.parent && c == e.child)
has_edge-append [] e p c = ground arith
has_edge-append (x ∷ xs) e p c = ground (arith, has_edge-append xs e p c)

pub get-link :
    (k id j : TurnId) (m : List (TurnId × List TurnId)) (a : TurnId)
    → IsOrdered m
    → contains (or_empty (get j (link k id m))) a
      ≡ contains (or_empty (get j m)) a || (j == k && a == id)
unfolding link
get-link k id j m a h = elim (Bool-cases (j == k)) [
  | inl same ↦ ground (
    arith,
    get-insert_same k (insert_id id (or_empty (get k m))) m,
    contains-insert_id id (or_empty (get k m)) a,
  )
  | inr other ↦
      ground
        (arith, get-insert_other k j (insert_id id (or_empty (get k m))) m (λ e. ground arith) h)
]

link-Increasing :
    (k id j : TurnId) (m : List (TurnId × List TurnId))
    → IsOrdered m
    → ((i : TurnId) → Increasing (or_empty (get i m)))
    → Increasing (or_empty (get j (link k id m)))
unfolding link
link-Increasing k id j m h sets = elim (Bool-cases (j == k)) [
  | inl same ↦ ground (
    arith,
    get-insert_same k (insert_id id (or_empty (get k m))) m,
    insert_id-Increasing id (or_empty (get k m)) (sets k),
  )
  | inr other ↦ ground (
    arith,
    get-insert_other k j (insert_id id (or_empty (get k m))) m (λ e. ground arith) h,
    sets j,
  )
]

module _ {F : Type 0} where
  -- The stores that a program can build.
  pub data Built : InMemoryGraphStore F → Type 0 where
    empty : Built new
    turn_added :
        {s : InMemoryGraphStore F} (turn : TurnSnapshot F) → Built s → Built (add_turn s turn)
    edge_added : {s : InMemoryGraphStore F} (edge : Edge) → Built s → Built (add_edge s edge)

  pub record WellFormed (s : InMemoryGraphStore F) : Type 0 where
    pub turns_ordered : IsOrdered s.turns
    pub children_ordered : IsOrdered s.children
    pub parents_ordered : IsOrdered s.parents
    pub own_key : (id : TurnId) (t : TurnSnapshot F) → get id s.turns ≡ some t → t.id ≡ id
    pub children_of_edges :
        (p c : TurnId) → contains (or_empty (get p s.children)) c ≡ has_edge s.edges p c
    pub parents_of_edges :
        (c p : TurnId) → contains (or_empty (get c s.parents)) p ≡ has_edge s.edges p c
    pub children_increasing : (p : TurnId) → Increasing (or_empty (get p s.children))
    pub parents_increasing : (c : TurnId) → Increasing (or_empty (get c s.parents))

  new-WellFormed : WellFormed new
  unfolding new get
  new-WellFormed = record {
    turns_ordered = tt;
    children_ordered = tt;
    parents_ordered = tt;
    own_key = λ id t h. cc;
    children_of_edges = λ p c. refl;
    parents_of_edges = λ c p. refl;
    children_increasing = λ p. tt;
    parents_increasing = λ c. tt;
  }

  own_key-insert :
      (s : InMemoryGraphStore F) (turn : TurnSnapshot F)
      → WellFormed s
      → (id : TurnId) (t : TurnSnapshot F) → get id (insert turn.id turn s.turns) ≡ some t
      → t.id ≡ id
  own_key-insert s turn wf id t h = elim (Bool-cases (id == turn.id)) [
    | inl same ↦
        let e : id ≡ turn.id = ground (arith, same) in
        let h' = subst (λ i. get i (insert turn.id turn s.turns) ≡ some t) e h in
        ground (arith, get-insert_same turn.id turn s.turns, h', e)
    | inr other ↦ wf.own_key id t (
        sym (get-insert_other turn.id id turn s.turns (λ e. ground (arith, other)) wf.turns_ordered)
        ∙ h)
  ]

  add_turn-WellFormed :
      (s : InMemoryGraphStore F) (turn : TurnSnapshot F)
      → WellFormed s
      → WellFormed (add_turn s turn)
  unfolding add_turn
  add_turn-WellFormed s turn wf = record {
    turns_ordered = insert-IsOrdered turn.id turn s.turns wf.turns_ordered;
    children_ordered = wf.children_ordered;
    parents_ordered = wf.parents_ordered;
    own_key = own_key-insert s turn wf;
    children_of_edges = wf.children_of_edges;
    parents_of_edges = wf.parents_of_edges;
    children_increasing = wf.children_increasing;
    parents_increasing = wf.parents_increasing;
  }

  add_edge-WellFormed :
      (s : InMemoryGraphStore F) (e : Edge) → WellFormed s → WellFormed (add_edge s e)
  unfolding add_edge link
  add_edge-WellFormed s e wf = record {
    turns_ordered = wf.turns_ordered;
    children_ordered = insert-IsOrdered e.parent _ s.children wf.children_ordered;
    parents_ordered = insert-IsOrdered e.child _ s.parents wf.parents_ordered;
    own_key = wf.own_key;
    children_of_edges = λ p c. ground (
      arith,
      get-link e.parent e.child p s.children c wf.children_ordered,
      has_edge-append s.edges e p c,
      wf.children_of_edges p c,
    );
    parents_of_edges = λ c p. ground (
      arith,
      get-link e.child e.parent c s.parents p wf.parents_ordered,
      has_edge-append s.edges e p c,
      wf.parents_of_edges c p,
    );
    children_increasing = λ p.
        link-Increasing e.parent e.child p s.children wf.children_ordered wf.children_increasing;
    parents_increasing =
        λ c. link-Increasing e.child e.parent c s.parents wf.parents_ordered wf.parents_increasing;
  }

  -- Every store that `new`, `add_turn` and `add_edge` build is well formed: the maps are in order,
  -- each turn stands under its own identifier, and the sets of children and parents, ascending, are
  -- those of the edges.
  pub Built-WellFormed : {s : InMemoryGraphStore F} → Built s → WellFormed s
  Built-WellFormed empty = new-WellFormed
  Built-WellFormed (turn_added turn b) = add_turn-WellFormed _ turn (Built-WellFormed b)
  Built-WellFormed (edge_added edge b) = add_edge-WellFormed _ edge (Built-WellFormed b)

  -- Of a built store, `p` is listed as a parent of `c` exactly if `c` is listed as a child of `p`,
  -- which is if an edge leads from `p` to `c`.
  pub get_parents-get_children :
      {s : InMemoryGraphStore F}
      → Built s
      → (p c : TurnId)
      → (contains (get_parents s c) p ≡ contains (get_children s p) c)
        × (contains (get_children s p) c ≡ has_edge s.edges p c)
  unfolding get_parents get_children
  get_parents-get_children b p c =
      let wf = Built-WellFormed b in
      (wf.parents_of_edges c p ∙ sym (wf.children_of_edges p c), wf.children_of_edges p c)
