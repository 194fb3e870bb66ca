-- ===== src/Server/Deployment/Menu/Reads.antt =====
-- Commands and the lines that are typed: none puts a line back.
use pabel.Base.{◌≤◌, ◌≡◌, refl, ap, Bool, true, false, Option}
use pabel.Base.{List, [], ◌∷◌, arith, length, if◌then◌else◌, not, ◌&&◌, nat_beq}
use pabel.Base.{Text, codes, strip}
use pabel.Base.Exec.{Result, ok, err, lift, pure, raise, proceed, ◌>>=◌}
use pabel.Server.{Services, Service, Failure}
use pabel.Server.Deployment.{Desk, Deploy, Command, in_service, input, line_of}
use pabel.Server.Deployment.{compose, run_nerdctl}
use pabel.Server.Deployment.Menu.{ask_for, answered}

module _ (S : Services) (D : Deploy S) where
  -- no line is put back
  abbrev pub Reads : Desk S → Desk S → Type 0
  Reads d d' = length d'.lines ≤ length d.lines

  -- a command of which this is so wherever it starts
  abbrev pub Reader : {A : Type 0} → Command S A → Type 0
  Reader m = (d : Desk S) → Reads d (m d).1

  abbrev then_Reads :
      {A B : Type 0} (f : A → Command S B) (got : Result Failure A × Desk S) (d : Desk S)
      → Reads d got.1
      → ((a : A) → Reader (f a))
      → Reads d (proceed f got).1
  then_Reads f (ok a, v) d h k = omega (arith, h, k a v)
  then_Reads f (err e, v) d h k = h

  pub bind-Reader :
      {A B : Type 0} (m : Command S A) (f : A → Command S B)
      → Reader m
      → ((a : A) → Reader (f a))
      → Reader (m >>= f)
  bind-Reader m f h k d = then_Reads f (m d) d (h d) k

  pub if-Reader :
      {A : Type 0} (b : Bool) (m n : Command S A)
      → Reader m
      → Reader n
      → Reader (if b then m else n)
  if-Reader true m n h k = h
  if-Reader false m n h k = k

  -- where the lines are as they were
  pub same-Reads : (d d' : Desk S) → d'.lines ≡ d.lines → Reads d d'
  same-Reads d d' h = omega (arith, ap length h)

  -- a command that reads no line
  pub still-Reader :
      {A : Type 0} (m : Command S A) → ((d : Desk S) → (m d).1.lines ≡ d.lines) → Reader m
  still-Reader m h d = same-Reads d (m d).1 (h d)

  pub service-Reader : {A : Type 0} (m : Service S A) → Reader (in_service m)
  service-Reader m d = omega arith

  pub lift-Reader : {A : Type 0} (r : Result Failure A) → Reader (lift r)
  lift-Reader r d = omega arith

  pub pure-Reader : {A : Type 0} (a : A) → Reader (pure a)
  pure-Reader a d = omega arith

  pub compose-Reader : (check : Bool) (args : List Text) → Reader (compose S D check args)
  unfolding compose run_nerdctl
  compose-Reader check args =
      bind-Reader (run_nerdctl S D (codes "compose" ∷ args)) _ (λ d. omega arith)
        (λ rc.
          if-Reader (check && not (nat_beq rc 0)) (raise _) (pure tt) (λ d. omega arith)
            (pure-Reader tt))

  read_line-Reads : (lines : List Text) (d : Desk S) → d.lines ≡ lines → Reads d (line_of d lines).1
  read_line-Reads [] d h = omega arith
  read_line-Reads (t ∷ ts) d h = omega (arith, ap length h)

  pub input-Reader : Reader input
  input-Reader d = read_line-Reads d.lines d refl

  pub ask_for-Reader : (default : Option Text) → Reader (ask_for S D default)
  unfolding ask_for
  ask_for-Reader default =
      bind-Reader input _ input-Reader
        (λ line. pure-Reader (answered S D default (strip D.realm.is_space line)))
