-- ===== src/Installers/Hooks/Present.antt =====
-- A command is present once it was merged.
use pabel.Base.{◌≡◌, refl, true, Option, none, some, arith, inl, inr, Option-cases}
use pabel.Base.{Text}
use pabel.Json.{Json, Items, Fields, nil, cons}
use pabel.Installers.Hooks.{
  is_hook, refresh_first, hook_entry, append, merge_hooks, present_in_items, command_present,
}
use pabel.Installers.Hooks.Merge.{IsExtra, is_hook-refresh, is_hook-hook_entry}

pub present-append :
    (c : Text) (vs : Items) (w : Json)
    → is_hook c w ≡ true
    → present_in_items c (append vs w) ≡ true
unfolding append command_present
present-append c nil w h = ground arith
present-append c (cons v vs) w h = ground (arith, present-append c vs w h)

pub present-refresh_first :
    (c : Text) (extra : Fields) (vs ws : Items)
    → IsExtra extra
    → refresh_first c extra vs ≡ some ws
    → present_in_items c ws ≡ true
unfolding refresh_first command_present
present-refresh_first c extra nil ws e h = cc
present-refresh_first c extra (cons v vs) ws e h = elim (Option-cases (refresh_first c extra vs)) [
  | inl gone ↦ ground (arith, is_hook-refresh c extra v e, gone)
  | inr found ↦ ground (
    arith,
    is_hook-refresh c extra v e,
    found.1,
    present-refresh_first c extra vs found.0 e found.1,
  )
]

merged_present :
    (c : Text) (extra : Fields) (vs : Items) (o : Option Items)
    → IsExtra extra
    → refresh_first c extra vs ≡ o
    → present_in_items c (merge_hooks c extra vs) ≡ true
unfolding merge_hooks
merged_present c extra vs none e h =
    rw h (present-append c vs (hook_entry c extra) (is_hook-hook_entry c extra e))
merged_present c extra vs (some ws) e h = rw h (present-refresh_first c extra vs ws e h)

pub present-merge_hooks :
    (c : Text) (extra : Fields) (vs : Items)
    → IsExtra extra
    → present_in_items c (merge_hooks c extra vs) ≡ true
present-merge_hooks c extra vs e = merged_present c extra vs (refresh_first c extra vs) e refl
