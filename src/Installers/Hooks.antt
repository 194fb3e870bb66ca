-- ===== src/Installers/Hooks.antt =====
-- The hook entries of installers/base.py, with `_command_present` of cli/main.py. A dict or list
-- that the code changes in place is rebuilt.
pub mod Remove
pub mod Nested
pub mod Merge
pub mod Present
use pabel.Base.{Bool, true, false, not, ◌&&◌, ◌||◌, Option, none, some, List, [], ◌∷◌, ◌++◌}
use pabel.Base.{Text, codes, text_eq, text_eq_instance, contains, if◌then◌else◌}
use pabel.Base.Exec.{Result, ok, err}
use pabel.Json.{
  Json, Items, Fields, null, bool, num, str, arr, obj, nil, cons, end, field, find, with_field,
  truthy,
}
use pabel.Failure.{Failure, other_error, foreign}

abbrev pub type_error : Failure
type_error = other_error (foreign (codes "TypeError"))

-- `HOOK_TIMEOUT_SECONDS`
abbrev pub hook_timeout_seconds : Json
hook_timeout_seconds = num (codes "200")

-- what a `command` entry is compared with
abbrev pub names_command : Text → Option Json → Bool
names_command command none = false
names_command command (some null) = false
names_command command (some (bool b)) = false
names_command command (some (num t)) = false
names_command command (some (str s)) = text_eq s command
names_command command (some (arr vs)) = false
names_command command (some (obj fs)) = false

-- `isinstance(item, dict) and item.get("command") == command`
unfoldable pub is_hook : Text → Json → Bool
is_hook command (obj fs) = names_command command (find (codes "command") fs)
is_hook command null = false
is_hook command (bool b) = false
is_hook command (num t) = false
is_hook command (str s) = false
is_hook command (arr vs) = false

-- `entry.update(extra)`
unfoldable pub update : Fields → Fields → Fields
update end fs = fs
update (field k v extra) fs = update extra (with_field k v fs)

abbrev refresh_fields : Fields → Fields → Fields
refresh_fields extra fs = update extra (with_field (codes "timeout") hook_timeout_seconds fs)

-- what becomes of an entry that is there already
unfoldable pub refresh : Fields → Json → Json
unfolding update
refresh extra (obj fs) = obj (refresh_fields extra fs)
refresh extra null = null
refresh extra (bool b) = bool b
refresh extra (num t) = num t
refresh extra (str s) = str s
refresh extra (arr vs) = arr vs

-- a new entry
unfoldable pub hook_entry : Text → Fields → Json
unfolding update
hook_entry command extra = obj (
    update extra (
      field (codes "type") (str (codes "command"))
        (field (codes "command") (str command) (field (codes "timeout") hook_timeout_seconds end))))

abbrev pub after_head : Json → Option Items → Option Items
after_head v none = none
after_head v (some vs) = some (cons v vs)

-- the entries with the first one of this command refreshed, if there is one
unfoldable pub refresh_first : Text → Fields → Items → Option Items
unfolding is_hook refresh
refresh_first command extra nil = none
refresh_first command extra (cons v vs) =
    let rest = refresh_first command extra vs in
    if is_hook command v then some (cons (refresh extra v) vs) else after_head v rest

unfoldable pub append : Items → Json → Items
append nil w = cons w nil
append (cons v vs) w = cons v (append vs w)

abbrev or_appended : Option Items → Items → Json → Items
or_appended (some vs) ws w = vs
or_appended none ws w = append ws w

-- `merge_hook_list`, on the entries
unfoldable pub merge_hooks : Text → Fields → Items → Items
unfolding refresh_first append hook_entry
merge_hooks command extra vs =
    or_appended (refresh_first command extra vs) vs (hook_entry command extra)

-- what `list` makes of a value that is not false
abbrev items_of_text : Text → Items
items_of_text [] = nil
items_of_text (c ∷ s) = cons (str (c ∷ [])) (items_of_text s)

abbrev items_of_keys : Fields → Items
items_of_keys end = nil
items_of_keys (field k v fs) = cons (str k) (items_of_keys fs)

-- `list(existing or [])`
unfoldable pub existing_list : Option Json → Result Failure Items
unfolding truthy
existing_list none = ok nil
existing_list (some null) = ok nil
existing_list (some (bool false)) = ok nil
existing_list (some (bool true)) = err type_error
existing_list (some (num t)) = if truthy (num t) then err type_error else ok nil
existing_list (some (str s)) = ok (items_of_text s)
existing_list (some (arr vs)) = ok vs
existing_list (some (obj fs)) = ok (items_of_keys fs)

-- `item.get("command") in commands`, where `commands` is a set of texts
abbrev lists_command : List Text → Option Json → Bool
lists_command commands none = false
lists_command commands (some null) = false
lists_command commands (some (bool b)) = false
lists_command commands (some (num t)) = false
lists_command commands (some (str s)) = contains s commands
lists_command commands (some (arr vs)) = false
lists_command commands (some (obj fs)) = false

unfoldable pub is_listed : List Text → Json → Bool
is_listed commands (obj fs) = lists_command commands (find (codes "command") fs)
is_listed commands null = false
is_listed commands (bool b) = false
is_listed commands (num t) = false
is_listed commands (str s) = false
is_listed commands (arr vs) = false

-- a list or a dict has no hash, and the test raises
abbrev has_no_hash : Option Json → Bool
has_no_hash none = false
has_no_hash (some null) = false
has_no_hash (some (bool b)) = false
has_no_hash (some (num t)) = false
has_no_hash (some (str s)) = false
has_no_hash (some (arr vs)) = true
has_no_hash (some (obj fs)) = true

unfoldable pub is_unhashable : Json → Bool
is_unhashable (obj fs) = has_no_hash (find (codes "command") fs)
is_unhashable null = false
is_unhashable (bool b) = false
is_unhashable (num t) = false
is_unhashable (str s) = false
is_unhashable (arr vs) = false

-- `remove_matching_commands` in three parts: what is left, whether an entry went, and whether a
-- test raised
unfoldable mutual
  unfolding is_listed

  pub without : List Text → Json → Json
  without commands null = null
  without commands (bool b) = bool b
  without commands (num t) = num t
  without commands (str s) = str s
  without commands (arr vs) = arr (without_items commands vs)
  without commands (obj fs) = obj (without_fields commands fs)

  pub without_items : List Text → Items → Items
  without_items commands nil = nil
  without_items commands (cons v vs) =
      let rest = without_items commands vs in
      let kept = cons (without commands v) rest in if is_listed commands v then rest else kept

  pub without_fields : List Text → Fields → Fields
  without_fields commands end = end
  without_fields commands (field k v fs) = field k (without commands v) (without_fields commands fs)

unfoldable mutual
  unfolding is_listed

  pub removes : List Text → Json → Bool
  removes commands null = false
  removes commands (bool b) = false
  removes commands (num t) = false
  removes commands (str s) = false
  removes commands (arr vs) = removes_items commands vs
  removes commands (obj fs) = removes_fields commands fs

  pub removes_items : List Text → Items → Bool
  removes_items commands nil = false
  removes_items commands (cons v vs) =
      is_listed commands v || (removes commands v || removes_items commands vs)

  pub removes_fields : List Text → Fields → Bool
  removes_fields commands end = false
  removes_fields commands (field k v fs) = removes commands v || removes_fields commands fs

unfoldable mutual
  unfolding is_listed is_unhashable

  pub raises : List Text → Json → Bool
  raises commands null = false
  raises commands (bool b) = false
  raises commands (num t) = false
  raises commands (str s) = false
  raises commands (arr vs) = raises_items commands vs
  raises commands (obj fs) = raises_fields commands fs

  pub raises_items : List Text → Items → Bool
  raises_items commands nil = false
  raises_items commands (cons v vs) =
      is_unhashable v
      || ((not (is_listed commands v) && raises commands v) || raises_items commands vs)

  pub raises_fields : List Text → Fields → Bool
  raises_fields commands end = false
  raises_fields commands (field k v fs) = raises commands v || raises_fields commands fs

unfoldable pub remove_matching_commands : List Text → Json → Result Failure (Json × Bool)
unfolding without removes raises
remove_matching_commands commands v =
    if raises commands v then err type_error else ok (without commands v, removes commands v)

-- `_command_present`
unfoldable mutual
  unfolding is_hook

  pub command_present : Text → Json → Bool
  command_present command null = false
  command_present command (bool b) = false
  command_present command (num t) = false
  command_present command (str s) = false
  command_present command (arr vs) = present_in_items command vs
  command_present command (obj fs) = present_in_fields command fs

  pub present_in_items : Text → Items → Bool
  present_in_items command nil = false
  present_in_items command (cons v vs) =
      (is_hook command v || command_present command v) || present_in_items command vs

  pub present_in_fields : Text → Fields → Bool
  present_in_fields command end = false
  present_in_fields command (field k v fs) =
      command_present command v || present_in_fields command fs
