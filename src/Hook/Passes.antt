-- ===== src/Hook/Passes.antt =====
-- What the hook lets pass where the agent reads nothing but its exit code.
use pabel.Base.{
  ◌≡◌, ◌≢◌, refl, ap, sym, inl, inr, Bool-cases, true, false, ◌&&◌, Option, none, some, List, ◌∷◌,
}
use pabel.Base.{Text, codes, text_eq, before}
use pabel.Failure.{Failure}
use pabel.Adapters.{is_allow}
use pabel.Base.Exec.{Result, ok, err, pure, proceed}
use mathlib.Core.Path.{subst}
use pabel.Json.{Json}
use pabel.Platform.{Platform}
use pabel.Types.{NormalizedCall, Decision, DecisionKind, RenderedResponse, allow}
use pabel.Client.{Host, World}
use pabel.Detection.{touches_pabel_credential_store, invokes_pabel_connector_internals}
use pabel.Adapters.Windsurf.{parse_run_command, render}
use pabel.Policy.{decide}
use pabel.Policy.Allowed.{decide-allow, MayPass}
use pabel.Hook.{main, run_parsed, windsurf, Adapter}

-- what decide() asks of a call that passes
abbrev pub Passes : Platform → NormalizedCall → Type 0
Passes P call =
    (touches_pabel_credential_store P call.tool_input ≡ false)
    × ((call.is_execute && invokes_pabel_connector_internals P call.tool_input) ≡ false)
    × MayPass P call

is_allow-lem : (k : DecisionKind) → is_allow k ≡ true → k ≡ allow
is_allow-lem allow h = refl
is_allow-lem k h = cc

ok_inj : {a b : RenderedResponse} → ◌≡◌ {A = Result Failure RenderedResponse} (ok a) (ok b) → a ≡ b
ok_inj h = cc

render-exit : (d : Decision) → (render d).exit_code ≢ 2 → d.kind ≡ allow
unfolding render
render-exit d h = elim (Bool-cases (is_allow d.kind)) [
  | inl hit ↦ is_allow-lem d.kind hit
  | inr miss ↦ absurd (h (rw miss refl))
]

module _ (P : Platform) (H : Host) where
  decided :
      (call : NormalizedCall) (w : World H) (r : RenderedResponse)
      (got : Result Failure Decision × World H)
      → decide P H call (codes "windsurf") w ≡ got
      → (proceed (λ d. pure (render d)) got).0 ≡ ok r
      → r.exit_code ≢ 2
      → Passes P call
  decided call w r (ok d, v) g h n =
      decide-allow P H call (codes "windsurf") w d (ap (λ x. x.0) g)
        (render-exit d (subst (λ x. x.exit_code ≢ 2) (sym (ok_inj h)) n))
  decided call w r (err e, v) g h n = cc

  abbrev runner : Adapter
  runner = windsurf (codes "windsurf:pre_run_command") parse_run_command

  parsed :
      (payload : Json) (o : Option NormalizedCall) (w : World H) (r : RenderedResponse)
      → parse_run_command payload ≡ o
      → (run_parsed P H runner o w).0 ≡ ok r
      → r.exit_code ≢ 2
      → (call : NormalizedCall) × (parse_run_command payload ≡ some call) × Passes P call
  unfolding run_parsed before
  parsed payload none w r g h n = cc
  parsed payload (some call) w r g h n =
      (call, g, decided call w r (decide P H call (codes "windsurf") w) refl h n)

  -- Where the hook answers Windsurf's pre_run_command with an exit code other than 2, it could parse
  -- the payload, and the call that this gives, with an empty command where the payload has none,
  -- touches no credential, does not run the connector's own modules, and meets the conditions of a
  -- call that may pass.
  pub main-Passes :
      (rest : List Text) (payload : Json) (w : World H) (r : RenderedResponse)
      → (main P H (codes "windsurf:pre_run_command" ∷ rest) payload w).0 ≡ ok r
      → r.exit_code ≢ 2
      → (call : NormalizedCall) × (parse_run_command payload ≡ some call) × Passes P call
  unfolding main text_eq
  main-Passes rest payload w r h n = parsed payload (parse_run_command payload) w r refl h n
