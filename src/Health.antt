-- ===== src/Health.antt =====
-- internal/platform/health/health.go, and `probes` and `serve` of internal/platform/app/lifecycle.go: when an instance
-- says that it takes traffic. A check is given by its result; a failure is `some`, whatever its error.
pub mod Ready
use televote.Prelude.{
  ℕ, Bool, true, false, not, ◌&&◌, ◌||◌, List, [], ◌∷◌, ◌++◌, map, Option, none, some,
  if◌then◌else◌, is_nil,
}
use televote.Prelude.Text.{Text, codes, text_eq}
use televote.Errors.{Result, ok, err, Failure}

-- What a `Checker` returns; a checker may be nil.
abbrev pub Check : Type 0
Check = Option (Option Failure)

-- `results[i] = check(ctx)`, where a nil checker leaves nil.
abbrev pub outcome : Check → Option Failure
outcome none = none
outcome (some res) = res

-- `runChecks`.
unfoldable pub run_checks : List Check → List Failure
run_checks [] = []
run_checks (c ∷ cs) =
    let rest = run_checks cs in elim (outcome c) [ none ↦ rest | some e ↦ e ∷ rest ]

abbrev pub served_method : Text → Bool
served_method m = text_eq m (codes "GET") || text_eq m (codes "HEAD")

-- The status and the word of the body that `Probes.serve` writes.
unfoldable pub probe : Text → List Check → ℕ × Text
probe method checks =
    if not (served_method method)
    then (405, codes "method_not_allowed")
    else if is_nil (run_checks checks)
    then (200, codes "ok")
    else (503, codes "unavailable")

-- `Gate.Checker`: its error is no sentinel of the domain.
unfoldable pub gate_check : Bool → Check
gate_check true = some none
gate_check false = some (some [])

-- `Ready` of the probes that `runtime.probes` makes.
unfoldable pub ready_probe : Text → List Check → Bool → ℕ × Text
ready_probe method readiness gate = probe method (readiness ++ gate_check gate ∷ [])

-- What `serve` does, in order.
pub data Step : Type 0 where
  listening debugging working : Step
  set_ready : Bool → Step
  shut_down_debug shut_down wait_background : Step

-- What ends the wait of `serve`: the listener, with its error if it has one, or a signal.
pub data Ending : Type 0 where
  listener : Option Failure → Ending
  signalled : Ending

abbrev pub when : Bool → Step → List Step
when true s = s ∷ []
when false s = []

abbrev start : Bool → List Step
start debug = listening ∷ (when debug debugging ++ working ∷ set_ready true ∷ [])

abbrev pub result_of : Option Failure → Result (Unit {0})
result_of none = ok tt
result_of (some e) = err e

-- `errors.Join`.
abbrev pub join : Option Failure → Option Failure → Option Failure
join none f = f
join (some e) none = some e
join (some e) (some f) = some (e ++ f)

-- `serve`, given what `Shutdown` and then the listener return.
unfoldable pub serve :
    Bool → Ending → Option Failure → Option Failure → Result (Unit {0}) × List Step
serve debug (listener e) shutdown after = (result_of e, start debug)
serve debug signalled shutdown after = (
  result_of (join shutdown after),
  start debug ++ set_ready false ∷ (when debug shut_down_debug ++ shut_down ∷ wait_background ∷ []),
)
