-- ===== src/Installers/Points.antt =====
-- The hook points that the installers' edits wire.
use pabel.Base.{◌≡◌, refl, true, false, Option, none, some, List, [], ◌∷◌, arith, All}
use mathlib.Core.Path.{subst}
use pabel.Base.{Text, codes, text_eq, contains, Distinct, text_eq_instance}
use pabel.Base.Exec.{Result, ok, err}
use pabel.Json.{
  Json, Items, Fields, null, bool, num, str, arr, obj, nil, cons, end, field, find, with_field,
}
use pabel.Json.Update.{find-with_field}
use pabel.Failure.{Failure}
use pabel.Installers.Disk.{Machine}
use pabel.Installers.Hooks.{
  command_present, present_in_items, existing_list, refresh_first, merge_hooks, append, hook_entry,
}
use pabel.Installers.Hooks.Nested.{
  refresh_block, with_hooks, this_or_later, refresh_blocks, refresh_hooks, merge_nested,
  or_new_block,
}
use pabel.Installers.Hooks.Merge.{IsExtra, is_hook-hook_entry}
use pabel.Installers.Hooks.Present.{present-merge_hooks, present-refresh_first}
use pabel.Installers.Setting.{
  ◌>>=◌, hook_command_windows, install_windows_aware_hook, merged, merged_nested, hook_command,
  install_multi_point_hooks, install_nested, point_key, set_in,
}
use pabel.Installers.Wired.{WiredAt, set_in-WiredAt, set_in-keeps-WiredAt, bind-ok, find-present}

end-IsExtra : IsExtra end
unfolding find
end-IsExtra = record { distinct = tt; no_command = refl; no_timeout = refl }

-- a list in which the command stands
abbrev pub Holds : Text → Json → Type 0
Holds c v = (vs : Items) × (v ≡ arr vs) × (present_in_items c vs ≡ true)

with_hooks-present :
    (c : Text) (fs : Fields) (vs : Items) (o : Option Items) (w : Json)
    → refresh_first c end vs ≡ o
    → with_hooks fs o ≡ some w
    → command_present c w ≡ true
unfolding command_present
with_hooks-present c fs vs none w r h = cc
with_hooks-present c fs vs (some us) w r h =
    let made : obj (with_field (codes "hooks") (arr us) fs) ≡ w = cc in
    subst (λ w. command_present c w ≡ true) made
      (find-present c (codes "hooks") (arr us) (with_field (codes "hooks") (arr us) fs)
        (find-with_field (codes "hooks") (arr us) fs)
        (present-refresh_first c end vs us end-IsExtra r))

refresh_hooks-present :
    (c : Text) (fs : Fields) (o : Option Json) (w : Json)
    → refresh_hooks c fs o ≡ ok (some w)
    → command_present c w ≡ true
refresh_hooks-present c fs none w h = cc
refresh_hooks-present c fs (some (arr vs)) w h =
    with_hooks-present c fs vs (refresh_first c end vs) w refl cc
refresh_hooks-present c fs (some (str s)) w h = cc
refresh_hooks-present c fs (some (obj gs)) w h = cc
refresh_hooks-present c fs (some null) w h = cc
refresh_hooks-present c fs (some (bool b)) w h = cc
refresh_hooks-present c fs (some (num t)) w h = cc

refresh_block-present :
    (c : Text) (v w : Json) → refresh_block c v ≡ ok (some w) → command_present c w ≡ true
unfolding refresh_block
refresh_block-present c null w h = cc
refresh_block-present c (bool b) w h = cc
refresh_block-present c (num t) w h = cc
refresh_block-present c (str s) w h = cc
refresh_block-present c (arr vs) w h = cc
refresh_block-present c (obj fs) w h = refresh_hooks-present c fs (find (codes "hooks") fs) w h

this_or_later-present :
    (c : Text) (v : Json) (vs ws : Items) (r : Result Failure (Option Json))
    (later : Result Failure (Option Items))
    → ((w : Json) → r ≡ ok (some w) → command_present c w ≡ true)
    → ((us : Items) → later ≡ ok (some us) → present_in_items c us ≡ true)
    → this_or_later v vs r later ≡ ok (some ws)
    → present_in_items c ws ≡ true
unfolding command_present
this_or_later-present c v vs ws (err e) later p q h = cc
this_or_later-present c v vs ws (ok (some w)) later p q h =
    let made : cons w vs ≡ ws = cc in
    subst (λ ws. present_in_items c ws ≡ true) made (ground (arith, p w refl))
this_or_later-present c v vs ws (ok none) (err e) p q h = cc
this_or_later-present c v vs ws (ok none) (ok none) p q h = cc
this_or_later-present c v vs ws (ok none) (ok (some us)) p q h =
    let made : cons v us ≡ ws = cc in
    subst (λ ws. present_in_items c ws ≡ true) made (ground (arith, q us refl))

refresh_blocks-present :
    (c : Text) (vs ws : Items) → refresh_blocks c vs ≡ ok (some ws) → present_in_items c ws ≡ true
unfolding refresh_blocks
refresh_blocks-present c nil ws h = cc
refresh_blocks-present c (cons v vs) ws h =
    this_or_later-present c v vs ws (refresh_block c v) (refresh_blocks c vs)
      (refresh_block-present c v) (refresh_blocks-present c vs) h

-- the block that is added where there was none
abbrev hook_block : Text → Json
hook_block c = obj (field (codes "hooks") (arr (cons (hook_entry c end) nil)) end)

hook_block-present : (c : Text) → command_present c (hook_block c) ≡ true
unfolding command_present
hook_block-present c = rw (is_hook-hook_entry c end end-IsExtra) refl

present-append_nested :
    (c : Text) (vs : Items) → present_in_items c (append vs (hook_block c)) ≡ true
unfolding command_present append
present-append_nested c nil = ground (arith, hook_block-present c)
present-append_nested c (cons v vs) = ground (arith, present-append_nested c vs)

new_block-present :
    (c : Text) (vs ws : Items) (r : Result Failure (Option Items))
    → ((us : Items) → r ≡ ok (some us) → present_in_items c us ≡ true)
    → or_new_block c vs r ≡ ok ws
    → present_in_items c ws ≡ true
new_block-present c vs ws (err e) p h = cc
new_block-present c vs ws (ok (some us)) p h = p ws cc
new_block-present c vs ws (ok none) p h =
    let made : append vs (hook_block c) ≡ ws = cc in
    subst (λ ws. present_in_items c ws ≡ true) made (present-append_nested c vs)

merge_nested-present :
    (c : Text) (vs ws : Items) → merge_nested c vs ≡ ok ws → present_in_items c ws ≡ true
unfolding merge_nested
merge_nested-present c vs ws h =
    new_block-present c vs ws (refresh_blocks c vs) (refresh_blocks-present c vs) h

module _ (M : Machine) where
  merged-Holds :
      (c : Text) (extra : Fields) (o : Option Json) (v : Json)
      → IsExtra extra
      → merged M c extra o ≡ ok v
      → Holds c v
  merged-Holds c extra o v e h =
      let (vs, _, made) = bind-ok (existing_list o) (λ vs. ok (arr (merge_hooks c extra vs))) v h in
      (merge_hooks c extra vs, cc, present-merge_hooks c extra vs e)

  -- the first point's edit, and the edits of the others
  first_point :
      (agent p : Text) (points : List Text) (d d' : Json)
      → install_multi_point_hooks M agent (p ∷ points) d ≡ ok d'
      → (d1 : Json) × (set_in
            (codes "hooks")
            p
            (merged M (hook_command M (point_key agent p)) end)
            d
          ≡ ok d1)
        × (install_multi_point_hooks M agent points d1 ≡ ok d')
  unfolding install_multi_point_hooks
  first_point agent p points d d' h =
      bind-ok (set_in (codes "hooks") p (merged M (hook_command M (point_key agent p)) end) d)
        (install_multi_point_hooks M agent points) d' h

  -- a later point does not undo an earlier one
  points-keep-WiredAt :
      (agent c event : Text) (points : List Text) (d d' : Json)
      → contains event points ≡ false
      → WiredAt c event d
      → install_multi_point_hooks M agent points d ≡ ok d'
      → WiredAt c event d'
  unfolding install_multi_point_hooks
  points-keep-WiredAt agent c event [] d d' n w h =
      let e : d ≡ d' = cc in subst (WiredAt c event) e w
  points-keep-WiredAt agent c event (p ∷ points) d d' n w h =
      let (d1, first, rest) = first_point agent p points d d' h in
      points-keep-WiredAt agent c event points d1 d' (ground (arith, n))
        (set_in-keeps-WiredAt c event p (merged M (hook_command M (point_key agent p)) end) d d1
          (ground (arith, n)) w first)
        rest

  pub points-WiredAt :
      (agent : Text) (points : List Text) (d d' : Json)
      → Distinct points
      → install_multi_point_hooks M agent points d ≡ ok d'
      → All (λ p. WiredAt (hook_command M (point_key agent p)) p d') points
  unfolding install_multi_point_hooks
  points-WiredAt agent [] d d' n h = tt
  points-WiredAt agent (p ∷ points) d d' n h =
      let (d1, first, rest) = first_point agent p points d d' h in
      let c = hook_command M (point_key agent p) in
      let w =
        set_in-WiredAt c p (merged M c end) d d1 (λ o v. merged-Holds c end o v end-IsExtra)
          first in
      (
        points-keep-WiredAt agent c p points d1 d' n.0 w rest,
        points-WiredAt agent points d1 d' n.1 rest,
      )

  nested-Holds : (c : Text) (o : Option Json) (v : Json) → merged_nested M c o ≡ ok v → Holds c v
  nested-Holds c o v h =
      let (vs, _, h1) =
        bind-ok (existing_list o) (λ vs. merge_nested c vs >>= λ ws. ok (arr ws)) v h in
      let (ws, made, h2) = bind-ok (merge_nested c vs) (λ ws. ok (arr ws)) v h1 in
      (ws, cc, merge_nested-present c vs ws made)

  -- an event of claude_code.py is wired by its edit, and stays wired under the edit of another
  pub nested-WiredAt :
      (event key : Text) (d d' : Json)
      → install_nested M event key d ≡ ok d'
      → WiredAt (hook_command M key) event d'
  unfolding install_nested
  nested-WiredAt event key d d' h =
      set_in-WiredAt (hook_command M key) event (merged_nested M (hook_command M key)) d d'
        (nested-Holds (hook_command M key)) h

  pub nested-keeps-WiredAt :
      (c event other key : Text) (d d' : Json)
      → text_eq other event ≡ false
      → WiredAt c event d
      → install_nested M other key d ≡ ok d'
      → WiredAt c event d'
  unfolding install_nested
  nested-keeps-WiredAt c event other key d d' n w h =
      set_in-keeps-WiredAt c event other (merged_nested M (hook_command M key)) d d' n w h

  pub windows_aware-WiredAt :
      (event key : Text) (d d' : Json)
      → install_windows_aware_hook M event key d ≡ ok d'
      → WiredAt (hook_command M key) event d'
  unfolding install_windows_aware_hook find text_eq
  windows_aware-WiredAt event key d d' h =
      let extra = field (codes "windows") (str (hook_command_windows M key)) end in
      set_in-WiredAt (hook_command M key) event (merged M (hook_command M key) extra) d d'
        (λ o v.
          merged-Holds (hook_command M key) extra o v
            (record { distinct = (refl, tt); no_command = refl; no_timeout = refl }))
        h
