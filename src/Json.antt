-- ===== src/Json.antt =====
-- JSON values as `json.loads` returns them, and the dict operations that the code applies to them.
-- A number is carried as the text that `json.dumps` prints for it. The keys of one object are
-- those of a Python dict: an update goes to the entry that `get` reads.
pub mod Dumps
pub mod Within
pub mod Update
use pabel.Base.{ℕ, Bool, true, false, ◌||◌, not, Option, none, some, List, [], ◌∷◌}
use pabel.Base.{Text, codes, text_eq, is_empty, if◌then◌else◌}

mutual
  pub data Json : Type 0 where
    null : Json
    bool : Bool → Json
    num : Text → Json
    str : Text → Json
    arr : Items → Json
    obj : Fields → Json

  pub data Items : Type 0 where
    nil : Items
    cons : Json → Items → Items

  pub data Fields : Type 0 where
    end : Fields
    field : Text → Json → Fields → Fields

-- `d.get(key)` on the entries, with `none` for an absent key
unfoldable pub find : Text → Fields → Option Json
find key end = none
find key (field k v fs) = if text_eq k key then some v else find key fs

-- `{**d, key: value}`
unfoldable pub with_field : Text → Json → Fields → Fields
with_field key value end = field key value end
with_field key value (field k v fs) =
    if text_eq k key then field k value fs else field k v (with_field key value fs)

-- the numbers that Python takes as false, as they are printed
abbrev is_zero : Text → Bool
is_zero t = text_eq t (codes "0") || (text_eq t (codes "0.0") || text_eq t (codes "-0.0"))

unfoldable pub truthy : Json → Bool
truthy null = false
truthy (bool b) = b
truthy (num t) = not (is_zero t)
truthy (str s) = not (is_empty s)
truthy (arr nil) = false
truthy (arr (cons v vs)) = true
truthy (obj end) = false
truthy (obj (field k v fs)) = true

-- `a or b`
abbrev pub or_else : Json → Json → Json
or_else a b = if truthy a then a else b

abbrev pub empty_str : Json
empty_str = str []

abbrev pub empty_obj : Json
empty_obj = obj end
