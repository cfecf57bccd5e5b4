-- ===== src/Lifecycle/Watchdog.antt =====
-- When the watchdog of internal/lifecycle/supervisor.go ends with the failures it counted.
use kfadapter.Base.{
  ℕ, zero, suc, ◌+◌, ◌≤◌, ◌≡◌, ◌≢◌, refl, ◌∙◌, Bool, true, false, List, [], ◌∷◌, if◌then◌else◌,
  arith,
}
use kfadapter.Lifecycle.{
  WatchEvent, context_done, probe_succeeded, probe_failed, WatchOutcome, context_ended, running,
  failed, watch, watchdog,
}

-- Whether the first `n` events are there and are failed probes.
abbrev pub starts_run : ℕ → List WatchEvent → Bool
starts_run zero events = true
starts_run (suc n) [] = false
starts_run (suc n) (context_done ∷ events) = false
starts_run (suc n) (probe_succeeded ∷ events) = false
starts_run (suc n) (probe_failed ∷ events) = starts_run n events

-- The outcome, by looking ahead for the first failed probe that starts such a run, or the context's end.
abbrev pub expected : ℕ → List WatchEvent → WatchOutcome
expected n [] = running
expected n (context_done ∷ events) = context_ended
expected n (probe_succeeded ∷ events) = expected n events
expected n (probe_failed ∷ events) =
    let rest = expected n events in if starts_run n (probe_failed ∷ events) then failed n else rest

starts_run_le :
    (m n : ℕ) (events : List WatchEvent)
    → m ≤ n
    → starts_run n events ≡ true
    → starts_run m events ≡ true
starts_run_le zero n events h e = refl
starts_run_le (suc m) zero events h e = absurd (omega (arith, h))
starts_run_le (suc m) (suc n) [] h e = e
starts_run_le (suc m) (suc n) (context_done ∷ events) h e = e
starts_run_le (suc m) (suc n) (probe_succeeded ∷ events) h e = e
starts_run_le (suc m) (suc n) (probe_failed ∷ events) h e =
    starts_run_le m n events (omega (arith, h)) e

expected_run :
    (n : ℕ) (events : List WatchEvent)
    → n ≢ 0
    → (if starts_run n events then failed n else expected n events) ≡ expected n events
expected_run zero events h = absurd (h refl)
expected_run (suc n) [] h = refl
expected_run (suc n) (context_done ∷ events) h = refl
expected_run (suc n) (probe_succeeded ∷ events) h = refl
expected_run (suc n) (probe_failed ∷ events) h = ground arith

-- With `left` more failures to go, the loop ends with the failures where they come next or a whole run does.
watch-expected :
    (t f left : ℕ) (events : List WatchEvent)
    → t ≡ f + suc left
    → watch t f events ≡ (if starts_run (suc left) events then failed t else expected t events)
unfolding watch
watch-expected t f left [] e = refl
watch-expected t f left (context_done ∷ events) e = refl
watch-expected zero f left (probe_succeeded ∷ events) e = absurd (omega (arith, e))
watch-expected (suc t) f left (probe_succeeded ∷ events) e =
    watch-expected (suc t) 0 t events (omega arith) ∙ expected_run (suc t) events (omega arith)
watch-expected t f zero (probe_failed ∷ events) e = ground (arith, e)
watch-expected t f (suc left) (probe_failed ∷ events) e = ground (
  arith,
  e,
  watch-expected t (suc f) left events (omega (arith, e)),
  starts_run_le (suc (suc left)) t (probe_failed ∷ events) (omega (arith, e)),
)

-- A watchdog with an interval, a threshold and a probe ends as `expected` says: with an error that names
-- exactly the threshold of failures, where a failed probe starts a run of that many failed ones in a row;
-- else with the context's error, where the context ends; else it still runs.
pub watchdog-expected :
    (interval threshold : ℕ) (events : List WatchEvent)
    → interval ≢ 0
    → threshold ≢ 0
    → watchdog interval threshold true events ≡ expected threshold events
unfolding watchdog
watchdog-expected interval zero events i t = absurd (t refl)
watchdog-expected interval (suc n) events i t =
    ground (arith, i, watch-expected (suc n) 0 n events (omega arith), expected_run (suc n) events)
