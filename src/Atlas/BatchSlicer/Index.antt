-- ===== src/Atlas/BatchSlicer/Index.antt =====
-- What the index of `build_turn_slice_index` answers.
use mathlib.Core.List.{append_assoc, append-nil}
use admissibility_kernel.Base.{
  or_empty, ◌≡◌, refl, sym, ap, ◌∙◌, List, [], ◌∷◌, ◌++◌, map, Str, if◌then◌else◌, arith,
}
use admissibility_kernel.Base.Order.{Ord, nat_ord, list_ord, list_cmp}
use admissibility_kernel.Base.Set.{same}
use admissibility_kernel.Base.Sort.{sort_by}
use admissibility_kernel.Base.Tree.{
  get, IsOrdered, get-insert_same, get-insert_other, insert-IsOrdered,
}
use admissibility_kernel.Crates.{Crypto}
use admissibility_kernel.Types.Turn.{TurnSnapshot}
use admissibility_kernel.Types.Slice.{SliceExport}
use admissibility_kernel.Atlas.BatchSlicer.{
  BatchSliceResult, TurnIndex, push_id, index_turns, index_slices, build_turn_slice_index,
}

-- The identifiers of a turn.
abbrev at : Str → TurnIndex → List Str
at id m = or_empty (get id m)

sort_all : TurnIndex → TurnIndex
sort_all = map (λ e. (e.0, sort_by list_cmp e.1))

at-sort_all : (id : Str) (m : TurnIndex) → at id (sort_all m) ≡ sort_by list_cmp (at id m)
unfolding sort_all get sort_by
at-sort_all id [] = refl
at-sort_all id ((k, ids) ∷ m) = ground (arith, at-sort_all id m)

at-push_id :
    (slice_id id j : Str) (m : TurnIndex)
    → IsOrdered m
    → at id (push_id slice_id j m) ≡ at id m ++ (if same id j then slice_id ∷ [] else [])
unfolding push_id
at-push_id slice_id id j m h =
    let o : Ord Str = list_ord in
    let ids = or_empty (get j m) ++ slice_id ∷ [] in
    ground (
      arith,
      get-insert_same j ids m,
      o.eq_of_cmp id j,
      get-insert_other j id ids m,
      append-nil (at id m),
    )

module _ {F : Type 0} (cr : Crypto F) where
  -- The slice's identifier, for each time that it lists the turn.
  abbrev pub listed_by : Str → Str → List (TurnSnapshot F) → List Str
  listed_by id slice_id [] = []
  listed_by id slice_id (t ∷ turns) =
      (if same id (cr.uuid_string t.id) then slice_id ∷ [] else []) ++ listed_by id slice_id turns

  -- The identifiers of the slices that list the turn.
  abbrev pub listed_in : Str → List (SliceExport F) → List Str
  listed_in id [] = []
  listed_in id (s ∷ slices) = listed_by id s.slice_id s.turns ++ listed_in id slices

  index_turns-IsOrdered :
      (slice_id : Str) (turns : List (TurnSnapshot F)) (m : TurnIndex)
      → IsOrdered m
      → IsOrdered (index_turns cr slice_id turns m)
  unfolding index_turns push_id
  index_turns-IsOrdered slice_id [] m h = h
  index_turns-IsOrdered slice_id (t ∷ turns) m h =
      index_turns-IsOrdered slice_id turns _ (insert-IsOrdered (cr.uuid_string t.id) _ m h)

  push_id-IsOrdered :
      (slice_id j : Str) (m : TurnIndex) → IsOrdered m → IsOrdered (push_id slice_id j m)
  unfolding push_id
  push_id-IsOrdered slice_id j m h = insert-IsOrdered j _ m h

  at-index_turns :
      (id slice_id : Str) (turns : List (TurnSnapshot F)) (m : TurnIndex)
      → IsOrdered m
      → at id (index_turns cr slice_id turns m) ≡ at id m ++ listed_by id slice_id turns
  unfolding index_turns
  at-index_turns id slice_id [] m h = sym (append-nil (at id m))
  at-index_turns id slice_id (t ∷ turns) m h =
      let j = cr.uuid_string t.id in
      at-index_turns id slice_id turns (push_id slice_id j m) (push_id-IsOrdered slice_id j m h)
      ∙ (ap (λ ids. ids ++ listed_by id slice_id turns) (at-push_id slice_id id j m h)
          ∙ append_assoc (at id m) (if same id j then slice_id ∷ [] else [])
              (listed_by id slice_id turns))

  at-index_slices :
      (id : Str) (slices : List (SliceExport F)) (m : TurnIndex)
      → IsOrdered m
      → at id (index_slices cr slices m) ≡ at id m ++ listed_in id slices
  unfolding index_slices
  at-index_slices id [] m h = sym (append-nil (at id m))
  at-index_slices id (s ∷ slices) m h =
      at-index_slices id slices _ (index_turns-IsOrdered s.slice_id s.turns m h)
      ∙ (ap (λ ids. ids ++ listed_in id slices) (at-index_turns id s.slice_id s.turns m h)
          ∙ append_assoc (at id m) (listed_by id s.slice_id s.turns) (listed_in id slices))

  -- The index holds, for each turn, the identifiers of the slices that list it, as often as they do,
  -- in order.
  pub build_turn_slice_index_lem :
      (r : BatchSliceResult F) (id : Str)
      → or_empty (get id (build_turn_slice_index cr r)) ≡ sort_by list_cmp (listed_in id r.slices)
  unfolding build_turn_slice_index sort_all get
  build_turn_slice_index_lem r id =
      at-sort_all id (index_slices cr r.slices [])
      ∙ ap (sort_by list_cmp) (at-index_slices id r.slices [] tt)
