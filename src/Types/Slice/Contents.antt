-- ===== src/Types/Slice/Contents.antt =====
-- What an exported slice holds: the given turns and edges in canonical order, whatever order they
-- came in.
use admissibility_kernel.Base.{
  ◌≡◌, refl, ◌∙◌, List, [], ◌∷◌, Bool, Str, Bytes, contains, filter, Permᴰ, arith,
}
use admissibility_kernel.Base.Sort.Unique.{sort_by-eq_of_perm, HasKeys}
use admissibility_kernel.Base.Sort.Ascending.{Ascending, sort_by-Ascending, contains-sort_by}
use admissibility_kernel.Crates.{Crypto}
use admissibility_kernel.Types.Turn.{TurnId, TurnSnapshot}
use admissibility_kernel.Types.Edge.{Edge, edge_ord}
use admissibility_kernel.Base.Order.{nat_ord}
use admissibility_kernel.Types.Slice.{
  SliceExport, GraphSnapshotHash, new_with_secret, contains_turn, filter_admissible, turn_ids,
}
use admissibility_kernel.Types.Slice.Search.Correct.{binary_search-eq-contains}

-- Turns with one identifier are one turn.
abbrev pub HasIds : {F : Type 0} → List (TurnSnapshot F) → Type 0
HasIds turns = HasKeys (λ t. t.id) turns

module _ {F : Type 0} (cr : Crypto F) (secret : Bytes) (anchor : TurnId)
    (policy_id params_hash : Str) (snapshot : GraphSnapshotHash) where
  abbrev export : List (TurnSnapshot F) → List Edge → SliceExport F
  export turns edges = new_with_secret cr secret anchor turns edges policy_id params_hash snapshot

  -- If turns with one identifier are one turn: the order in which turns and edges were found leaves no
  -- trace in the exported slice, so that its fingerprint and its token are the same too.
  pub new_with_secret-perm :
      {turns turns' : List (TurnSnapshot F)} {edges edges' : List Edge}
      → HasIds turns
      → Permᴰ turns turns'
      → Permᴰ edges edges'
      → export turns edges ≡ export turns' edges'
  unfolding new_with_secret
  new_with_secret-perm ids p q = rw (
    sort_by-eq_of_perm (λ t. t.id) p ids,
    sort_by-eq_of_perm {K = Edge} (λ e. e) q (λ x y _ _ same. same),
  )

  turns-Ascending :
      (turns : List (TurnSnapshot F)) (edges : List Edge)
      → Ascending (turn_ids (export turns edges).turns)
  unfolding new_with_secret
  turns-Ascending turns edges = sort_by-Ascending (λ t. t.id) turns

  pub contains-turn_ids :
      (turns : List (TurnSnapshot F)) (edges : List Edge) (id : TurnId)
      → contains (turn_ids (export turns edges).turns) id ≡ contains (turn_ids turns) id
  unfolding new_with_secret
  contains-turn_ids turns edges id = contains-sort_by (λ t. t.id) turns id

  -- The binary search of `contains_turn` finds exactly the turns that were exported.
  pub contains_turn-new_with_secret :
      (turns : List (TurnSnapshot F)) (edges : List Edge) (id : TurnId)
      → contains_turn (export turns edges) id ≡ contains (turn_ids turns) id
  unfolding contains_turn
  contains_turn-new_with_secret turns edges id =
      binary_search-eq-contains (turn_ids (export turns edges).turns) id
        (turns-Ascending turns edges)
      ∙ contains-turn_ids turns edges id

  filter_congr :
      (p q : TurnId → Bool) (ids : List TurnId)
      → ((id : TurnId) → p id ≡ q id)
      → filter p ids ≡ filter q ids
  filter_congr p q [] h = refl
  filter_congr p q (x ∷ ids) h = ground (arith, h x, filter_congr p q ids h)

  -- `filter_admissible` keeps exactly the requested turns that were exported, in their order.
  pub filter_admissible-new_with_secret :
      (turns : List (TurnSnapshot F)) (edges : List Edge) (ids : List TurnId)
      → filter_admissible (export turns edges) ids ≡ filter (contains (turn_ids turns)) ids
  unfolding filter_admissible
  filter_admissible-new_with_secret turns edges ids =
      filter_congr _ _ ids (contains_turn-new_with_secret turns edges)
