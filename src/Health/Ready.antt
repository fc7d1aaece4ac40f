-- ===== src/Health/Ready.antt =====
-- Traffic is taken only between the start and the signal to stop.
use televote.Prelude.{
  ◌≡◌, ◌↔◌, refl, Bool, true, false, List, [], ◌∷◌, ◌++◌, Option, none, some, All, arith,
}
use televote.Prelude.Text.{Text}
use televote.Errors.{ok, Failure}
use televote.Health.{
  Check, outcome, run_checks, served_method, probe, gate_check, ready_probe, Step, set_ready,
  shut_down, signalled, serve,
}

abbrev pub Passes : Check → Type 0
Passes c = outcome c ≡ none

run_checks_iff : (cs : List Check) → (run_checks cs ≡ []) ↔ All Passes cs
unfolding run_checks
run_checks_iff [] = (λ h. tt, λ h. refl)
run_checks_iff (none ∷ cs) = (λ h. (refl, (run_checks_iff cs).0 h), λ h. (run_checks_iff cs).1 h.1)
run_checks_iff (some none ∷ cs) =
    (λ h. (refl, (run_checks_iff cs).0 h), λ h. (run_checks_iff cs).1 h.1)
run_checks_iff (some (some e) ∷ cs) = (λ h. absurd (cc), λ h. absurd (cc))

All-last : (cs : List Check) (c : Check) → All Passes (cs ++ c ∷ []) ↔ (All Passes cs × Passes c)
All-last [] c = (λ h. (tt, h.0), λ h. (h.1, tt))
All-last (b ∷ cs) c = (
  λ h. let rest = (All-last cs c).0 h.1 in ((h.0, rest.0), rest.1),
  λ h. (h.0.0, (All-last cs c).1 (h.0.1, h.1)),
)

gate_iff : (gate : Bool) → Passes (gate_check gate) ↔ (gate ≡ true)
unfolding gate_check
gate_iff true = (λ h. refl, λ h. refl)
gate_iff false = (λ h. absurd (cc), λ h. absurd (cc))

probe_iff :
    (method : Text) (cs : List Check)
    → ((probe method cs).0 ≡ 200) ↔ ((served_method method ≡ true) × (run_checks cs ≡ []))
unfolding probe
probe_iff method cs = (λ h. (ground arith, ground arith), λ h. ground arith)

-- While it goes through its steps an instance does not shut its server down with the gate open.
abbrev pub Orderly : Bool → List Step → Type 0
Orderly gate [] = gate ≡ false
Orderly gate (set_ready b ∷ steps) = Orderly b steps
Orderly gate (shut_down ∷ steps) = (gate ≡ false) × Orderly gate steps
Orderly gate (_ ∷ steps) = Orderly gate steps

-- The readiness probe answers 200 exactly when it is asked by GET or HEAD, every check passes, and the gate is
-- open. After a signal the gate is closed before the server is shut down and stays closed, and `serve`
-- returns no error exactly when neither the shutdown nor the listener does.
pub ready_while_serving :
    (method : Text) (readiness : List Check) (gate debug : Bool) (shutdown after : Option Failure)
    → (((ready_probe method readiness gate).0 ≡ 200)
        ↔ ((served_method method ≡ true) × All Passes readiness × (gate ≡ true)))
      × Orderly false (serve debug signalled shutdown after).1
      × (((serve debug signalled shutdown after).0 ≡ ok tt) ↔ ((shutdown ≡ none) × (after ≡ none)))
unfolding ready_probe serve
ready_while_serving method readiness gate debug shutdown after = (
  (
    λ h.
        let (asked, fine) = (probe_iff method (readiness ++ gate_check gate ∷ [])).0 h in
        let (all, open_gate) =
          (All-last readiness (gate_check gate)).0 ((run_checks_iff _).0 fine) in
        (asked, all, (gate_iff gate).0 open_gate),
    λ h. (probe_iff method (readiness ++ gate_check gate ∷ [])).1 (
      h.0,
      (run_checks_iff _).1 ((All-last readiness (gate_check gate)).1 (h.1, (gate_iff gate).1 h.2)),
    ),
  ),
  orderly debug,
  returns shutdown after,
)
  where
    orderly : (d : Bool) → Orderly false (serve d signalled shutdown after).1
    orderly true = (refl, refl)
    orderly false = (refl, refl)

    returns :
        (s a : Option Failure) → ((serve debug signalled s a).0 ≡ ok tt) ↔ ((s ≡ none) × (a ≡ none))
    returns none none = (λ h. (refl, refl), λ h. refl)
    returns none (some f) = (λ h. absurd (cc), λ h. absurd (cc))
    returns (some e) none = (λ h. absurd (cc), λ h. absurd (cc))
    returns (some e) (some f) = (λ h. absurd (cc), λ h. absurd (cc))
