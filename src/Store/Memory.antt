-- ===== src/Store/Memory.antt =====
-- src/store/memory.rs: the store that keeps turns and edges in memory. Its updates take `&mut self`,
-- so each returns the new store.
pub mod Mirror
pub mod Answers
use Prim.Native.Nat.Ordering.{eq}
use admissibility_kernel.Base.{
  or_empty, ℕ, List, [], ◌∷◌, ◌++◌, map, Bool, true, false, ◌&&◌, Option, none, some, Ordering, Str,
  Result, ok, err, compare, codes, contains, filter, filter_map, length, take, ◌==◌, if◌then◌else◌,
}
use admissibility_kernel.Base.Order.{nat_ord, then_cmp}
use admissibility_kernel.Base.Sort.{sort_by}
use admissibility_kernel.Base.Tree.{get, insert, insert_id, set_of}
use admissibility_kernel.Crates.{Floats, Crypto}
use admissibility_kernel.Types.Turn.{TurnId, TurnSnapshot}
use admissibility_kernel.Types.Edge.{Edge, edge_cmp}
use admissibility_kernel.Store.{GraphStore}

pub data InMemoryError : Type 0 where
  turn_not_found : TurnId → InMemoryError

-- `Display`
unfoldable pub error_string : {F : Type 0} → Crypto F → InMemoryError → Str
error_string cr (turn_not_found id) = codes "Turn not found: " ++ cr.uuid_string id

pub record InMemoryGraphStore (F : Type 0) : Type 0 where
  pub turns : List (TurnId × TurnSnapshot F)
  pub children : List (TurnId × List TurnId)
  pub parents : List (TurnId × List TurnId)
  pub edges : List Edge

-- `map.entry(key).or_default().insert(id)`
unfoldable pub link : TurnId → TurnId → List (TurnId × List TurnId) → List (TurnId × List TurnId)
link key id m = insert key (insert_id id (or_empty (get key m))) m

module _ {F : Type 0} where
  unfoldable pub new : InMemoryGraphStore F
  new = record { turns = []; children = []; parents = []; edges = [] }

  unfoldable pub add_turn : InMemoryGraphStore F → TurnSnapshot F → InMemoryGraphStore F
  add_turn s turn = record s { turns = insert turn.id turn s.turns }

  unfoldable pub add_edge : InMemoryGraphStore F → Edge → InMemoryGraphStore F
  unfolding link
  add_edge s edge = record s {
    children = link edge.parent edge.child s.children;
    parents = link edge.child edge.parent s.parents;
    edges = s.edges ++ edge ∷ [];
  }

  unfoldable pub all_turns : InMemoryGraphStore F → List (TurnSnapshot F)
  all_turns s = map (λ e. e.1) s.turns

  unfoldable pub num_turns : InMemoryGraphStore F → ℕ
  num_turns s = length s.turns

  unfoldable pub num_edges : InMemoryGraphStore F → ℕ
  num_edges s = length s.edges

  unfoldable pub get_turn : InMemoryGraphStore F → TurnId → Option (TurnSnapshot F)
  get_turn s id = get id s.turns

  unfoldable pub get_turns : InMemoryGraphStore F → List TurnId → List (TurnSnapshot F)
  get_turns s ids = filter_map (λ id. get id s.turns) ids

  unfoldable pub get_parents : InMemoryGraphStore F → TurnId → List TurnId
  get_parents s id = or_empty (get id s.parents)

  unfoldable pub get_children : InMemoryGraphStore F → TurnId → List TurnId
  get_children s id = or_empty (get id s.children)

  unfoldable pub get_edges : InMemoryGraphStore F → List TurnId → List Edge
  get_edges s turn_ids =
      let id_set = set_of turn_ids in
      sort_by edge_cmp (filter (λ e. contains id_set e.parent && contains id_set e.child) s.edges)

-- The inner loop of `get_siblings`: all children but the turn itself.
unfoldable pub add_others : TurnId → List TurnId → List TurnId → List TurnId
add_others id [] siblings = siblings
add_others id (child ∷ children) siblings =
    add_others id children (if child == id then siblings else insert_id child siblings)

-- The outer loop, over the parents.
unfoldable pub gather :
    TurnId → List (TurnId × List TurnId) → List TurnId → List TurnId → List TurnId
unfolding add_others
gather id children [] siblings = siblings
gather id children (parent ∷ parents) siblings =
    gather id children parents (add_others id (or_empty (get parent children)) siblings)

-- Two saliences that do not compare count as equal.
abbrev pub or_equal : Option Ordering → Ordering
or_equal none = eq
or_equal (some ord) = ord

module _ {F : Type 0} (fl : Floats F) where
  -- Greater salience first, then the smaller identifier.
  abbrev pub sibling_cmp : TurnId × F → TurnId × F → Ordering
  sibling_cmp a b = then_cmp (or_equal (fl.partial_cmp b.1 a.1)) (compare a.0 b.0)

  unfoldable pub sibling_list : InMemoryGraphStore F → TurnId → List (TurnId × F)
  unfolding gather
  sibling_list s id = sort_by sibling_cmp (
      filter_map (λ sid. elim (get sid s.turns) [ none ↦ none | some t ↦ some (sid, t.salience) ])
        (gather id s.children (or_empty (get id s.parents)) []))

  unfoldable pub get_siblings : InMemoryGraphStore F → TurnId → ℕ → List TurnId
  unfolding sibling_list
  get_siblings s id limit = map (λ e. e.0) (take limit (sibling_list s id))

  -- `GraphStore for InMemoryGraphStore`
  abbrev pub graph_store : Crypto F → InMemoryGraphStore F → GraphStore F InMemoryError
  graph_store cr s = record {
    get_turn = λ id. ok (get_turn s id);
    get_turns = λ ids. ok (get_turns s ids);
    get_parents = λ id. ok (get_parents s id);
    get_children = λ id. ok (get_children s id);
    get_siblings = λ id limit. ok (get_siblings s id limit);
    get_edges = λ ids. ok (get_edges s ids);
    error_string = error_string cr;
  }
