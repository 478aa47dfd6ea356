-- ===== src/Types/Role.antt =====
-- `Role` of src/types/turn.rs.
use admissibility_kernel.Base.{
  ◌≡◌, refl, Option, none, some, Str, codes, str_eq, to_lowercase, if◌then◌else◌,
}

pub data Role : Type 0 where
  user assistant system tool : Role

unfoldable pub from_str : Str → Option Role
from_str s =
    let w = to_lowercase s in
    if str_eq w (codes "user")
    then some user
    else if str_eq w (codes "assistant")
    then some assistant
    else if str_eq w (codes "system")
    then some system
    else if str_eq w (codes "tool")
    then some tool
    else none

abbrev pub default : Role
default = user

-- `Display`
unfoldable pub to_string : Role → Str
to_string user = codes "user"
to_string assistant = codes "assistant"
to_string system = codes "system"
to_string tool = codes "tool"

-- What `Display` prints, `from_str` reads back.
pub from_str-to_string : (r : Role) → from_str (to_string r) ≡ some r
unfolding from_str to_string
from_str-to_string user = refl
from_str-to_string assistant = refl
from_str-to_string system = refl
from_str-to_string tool = refl
