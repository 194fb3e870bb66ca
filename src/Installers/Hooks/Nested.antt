-- ===== src/Installers/Hooks/Nested.antt =====
-- The nested hook entries of installers/claude_code.py: `_merge_nested_hook_list`.
use pabel.Base.{Option, none, some}
use pabel.Base.{Text, codes, text_eq_instance}
use pabel.Base.Exec.{Result, ok, err}
use pabel.Json.{
  Json, Items, Fields, null, bool, num, str, arr, obj, nil, cons, end, field, find, with_field,
}
use pabel.Failure.{Failure}
use pabel.Installers.Hooks.{type_error, refresh_first, after_head, append, hook_entry}

-- The nested shape of claude_code.py: an entry stands in the "hooks" of a block.
abbrev pub with_hooks : Fields → Option Items → Option Json
with_hooks fs none = none
with_hooks fs (some vs) = some (obj (with_field (codes "hooks") (arr vs) fs))

abbrev pub refresh_hooks : Text → Fields → Option Json → Result Failure (Option Json)
refresh_hooks command fs none = ok none
refresh_hooks command fs (some (arr vs)) = ok (with_hooks fs (refresh_first command end vs))
refresh_hooks command fs (some (str s)) = ok none
refresh_hooks command fs (some (obj gs)) = ok none
refresh_hooks command fs (some null) = err type_error
refresh_hooks command fs (some (bool b)) = err type_error
refresh_hooks command fs (some (num t)) = err type_error

unfoldable pub refresh_block : Text → Json → Result Failure (Option Json)
unfolding refresh_first
refresh_block command (obj fs) = refresh_hooks command fs (find (codes "hooks") fs)
refresh_block command null = ok none
refresh_block command (bool b) = ok none
refresh_block command (num t) = ok none
refresh_block command (str s) = ok none
refresh_block command (arr vs) = ok none

abbrev kept_before : Json → Result Failure (Option Items) → Result Failure (Option Items)
kept_before v (ok r) = ok (after_head v r)
kept_before v (err e) = err e

abbrev pub this_or_later :
    Json
    → Items
    → Result Failure (Option Json)
    → Result Failure (Option Items)
    → Result Failure (Option Items)
this_or_later v vs (ok (some v')) later = ok (some (cons v' vs))
this_or_later v vs (ok none) later = kept_before v later
this_or_later v vs (err e) later = err e

unfoldable pub refresh_blocks : Text → Items → Result Failure (Option Items)
unfolding refresh_block
refresh_blocks command nil = ok none
refresh_blocks command (cons v vs) =
    this_or_later v vs (refresh_block command v) (refresh_blocks command vs)

abbrev pub or_new_block : Text → Items → Result Failure (Option Items) → Result Failure Items
or_new_block command vs (ok (some ws)) = ok ws
or_new_block command vs (ok none) =
    ok (append vs (obj (field (codes "hooks") (arr (cons (hook_entry command end) nil)) end)))
or_new_block command vs (err e) = err e

-- `_merge_nested_hook_list`, on the blocks
unfoldable pub merge_nested : Text → Items → Result Failure Items
unfolding refresh_blocks append hook_entry
merge_nested command vs = or_new_block command vs (refresh_blocks command vs)
