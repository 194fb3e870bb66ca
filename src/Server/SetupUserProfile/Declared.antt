-- ===== src/Server/SetupUserProfile/Declared.antt =====
-- A second run of the set-up.
use mathlib.Core.Path.{subst}
use mathlib.Core.Option.{some-injective}
use pabel.Base.{◌≡◌, refl, Bool, true, false, Option, none, some}
use pabel.Base.{codes, text_eq}
use pabel.Base.Exec.{Result, ok, err}
use pabel.Base.Exec.Ran.{ok-eq}
use pabel.Json.{Json, Items, Fields, arr, obj, nil, cons, find, with_field}
use pabel.Json.{null, bool, num, str}
use pabel.Json.Update.{find-with_field}
use pabel.Server.{Failure}
use pabel.Server.SetupUserProfile.{
  named, or_later, declared, append, abe_attributes, unless_declared, for_attributes, declare,
}

or_later-false :
    (first later : Result Failure Bool)
    → or_later first later ≡ ok false
    → (first ≡ ok false) × (later ≡ ok false)
or_later-false (ok true) later h = cc
or_later-false (ok false) later h = (refl, h)
or_later-false (err e) later h = cc

declared-append :
    (as_ : Items) → declared as_ ≡ ok false → declared (append as_ abe_attributes) ≡ ok true
unfolding declared append find text_eq
declared-append nil h = refl
declared-append (cons a as_) h =
    let (absent, later) = or_later-false (named a) (declared as_) h in
    rw absent (declared-append as_ later)

settled :
    (fs : Fields) (as_ : Items) (profile : Json)
    → declared as_ ≡ ok true
    → find (codes "attributes") fs ≡ some (arr as_)
    → declare (obj fs) ≡ ok none
unfolding declare for_attributes unless_declared
settled fs as_ profile h e = rw (e, h) refl

again :
    (fs : Fields) (as_ : Items) (answer : Result Failure Bool) (profile : Json)
    → declared as_ ≡ answer
    → unless_declared fs as_ answer ≡ ok (some profile)
    → declare profile ≡ ok none
unfolding unless_declared
again fs as_ (ok true) profile e h = cc
again fs as_ (ok false) profile e h =
    let sent = with_field (codes "attributes") (arr (append as_ abe_attributes)) fs in
    subst (λ p. declare p ≡ ok none) (some-injective _ _ (ok-eq _ _ h))
      (settled sent (append as_ abe_attributes) profile (declared-append as_ e)
        (find-with_field (codes "attributes") (arr (append as_ abe_attributes)) fs))
again fs as_ (err x) profile e h = cc

-- The profile that the set-up sends is one that needs no change: a run that reads it back sends
-- nothing.
pub declare-declare :
    (profile sent : Json) → declare profile ≡ ok (some sent) → declare sent ≡ ok none
unfolding declare for_attributes
declare-declare (obj fs) sent h = of (find (codes "attributes") fs) h
  where
    of : (a : Option Json) → for_attributes fs a ≡ ok (some sent) → declare sent ≡ ok none
    of (some (arr as_)) h = again fs as_ (declared as_) sent refl h
    of none h = cc
    of (some null) h = cc
    of (some (bool b)) h = cc
    of (some (num t)) h = cc
    of (some (str t)) h = cc
    of (some (obj gs)) h = cc
declare-declare null sent h = cc
declare-declare (bool b) sent h = cc
declare-declare (num t) sent h = cc
declare-declare (str t) sent h = cc
declare-declare (arr vs) sent h = cc
