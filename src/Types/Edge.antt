-- ===== src/Types/Edge.antt =====
-- src/types/edge.rs: typed edges and their canonical order.
use Prim.Native.Nat.Ordering.{eq}
use admissibility_kernel.Base.{
  ℕ, ◌≡◌, refl, compare, Ordering, Option, none, some, Str, codes, str_eq, to_lowercase, ◌||◌,
  if◌then◌else◌, arith,
}
use admissibility_kernel.Base.Order.{Ord, IsOrd}
use admissibility_kernel.Types.Turn.{TurnId}

pub data EdgeType : Type 0 where
  reply branch reference default : EdgeType

unfoldable pub from_str : Str → Option EdgeType
from_str s =
    let w = to_lowercase s in
    if str_eq w (codes "reply")
    then some reply
    else if str_eq w (codes "branch")
    then some branch
    else if str_eq w (codes "reference")
    then some reference
    else if str_eq w (codes "default") || str_eq w (codes "")
    then some default
    else none

-- `Display`
unfoldable pub to_string : EdgeType → Str
to_string reply = codes "reply"
to_string branch = codes "branch"
to_string reference = codes "reference"
to_string default = codes "default"

pub from_str-to_string : (t : EdgeType) → from_str (to_string t) ≡ some t
unfolding from_str to_string
from_str-to_string reply = refl
from_str-to_string branch = refl
from_str-to_string reference = refl
from_str-to_string default = refl

-- The derived order is that of the declaration.
abbrev pub rank : EdgeType → ℕ
rank reply = 0
rank branch = 1
rank reference = 2
rank default = 3

pub record Edge : Type 0 where
  pub parent : TurnId
  pub child : TurnId
  pub edge_type : EdgeType

unfoldable pub new : TurnId → TurnId → EdgeType → Edge
new p c t = record { parent = p; child = c; edge_type = t }

-- `Edge::reply`
unfoldable pub new_reply : TurnId → TurnId → Edge
unfolding new
new_reply p c = new p c reply

-- `Ord for Edge`: parent, then child, then edge type.
abbrev pub edge_cmp : Edge → Edge → Ordering
edge_cmp a b = elim (compare a.parent b.parent) [
  | eq ↦ elim (compare a.child b.child) [
    | eq ↦ compare (rank a.edge_type) (rank b.edge_type)
    | ord ↦ ord
  ]
  | ord ↦ ord
]

eq_of_rank : (s t : EdgeType) → rank s ≡ rank t → s ≡ t
eq_of_rank s t h = ground arith

pub edge_cmp-IsOrd : IsOrd edge_cmp
edge_cmp-IsOrd = record {
  cmp_refl = λ a. ground arith;
  eq_of_cmp = λ a b. ground (arith, eq_of_rank a.edge_type b.edge_type);
  cmp_reverse = λ a b. ground arith;
  lt_trans = λ a b c. ground arith;
}

instance abbrev pub edge_ord : Ord Edge
edge_ord = record { cmp = edge_cmp; lawful = edge_cmp-IsOrd }
