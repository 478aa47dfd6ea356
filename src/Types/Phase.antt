-- ===== src/Types/Phase.antt =====
-- `Phase` of src/types/turn.rs.
use admissibility_kernel.Base.{
  ◌≡◌, refl, Option, none, some, Str, codes, str_eq, to_lowercase, if◌then◌else◌,
}
use admissibility_kernel.Crates.{Floats}

pub data Phase : Type 0 where
  exploration debugging planning consolidation synthesis : Phase

unfoldable pub from_str : Str → Option Phase
from_str s =
    let w = to_lowercase s in
    if str_eq w (codes "exploration")
    then some exploration
    else if str_eq w (codes "debugging")
    then some debugging
    else if str_eq w (codes "planning")
    then some planning
    else if str_eq w (codes "consolidation")
    then some consolidation
    else if str_eq w (codes "synthesis")
    then some synthesis
    else none

unfoldable pub default_weight : {F : Type 0} → Floats F → Phase → F
default_weight fl synthesis = fl.decimal 10 1
default_weight fl planning = fl.decimal 9 1
default_weight fl consolidation = fl.decimal 6 1
default_weight fl debugging = fl.decimal 5 1
default_weight fl exploration = fl.decimal 3 1

abbrev pub default : Phase
default = exploration

-- `Display`
unfoldable pub to_string : Phase → Str
to_string exploration = codes "exploration"
to_string debugging = codes "debugging"
to_string planning = codes "planning"
to_string consolidation = codes "consolidation"
to_string synthesis = codes "synthesis"

-- What `Display` prints, `from_str` reads back.
pub from_str-to_string : (p : Phase) → from_str (to_string p) ≡ some p
unfolding from_str to_string
from_str-to_string exploration = refl
from_str-to_string debugging = refl
from_str-to_string planning = refl
from_str-to_string consolidation = refl
from_str-to_string synthesis = refl
