-- ===== src/Lifecycle.antt =====
-- internal/lifecycle/supervisor.go: the checks of `New`, and the watchdog as a loop over what its turns wait for.
use kfadapter.Base.{
  ℕ, zero, suc, ◌-◌, ◌≤◌, ◌<◌, ◌≡◌, ◌⊎◌, refl, Bool, true, false, ◌||◌, ◌&&◌, not, List, [], ◌∷◌,
  is_empty, leb, ltb, ◌==◌, if◌then◌else◌, arith,
}
use kfadapter.Base.Bytes.{Bytes}
use kfadapter.Base.Dict.{member}
mod Examples
pub mod Watchdog

-- A worker's name, and whether it has a function to run.
pub record Worker : Type 0 where
  pub name : Bytes
  pub has_run : Bool

pub data SupervisorCheck : Type 0 where
  no_workers no_drain_timeout incomplete_worker duplicate_worker accepted : SupervisorCheck

check_workers : List Bytes → List Worker → SupervisorCheck
check_workers seen [] = accepted
check_workers seen (w ∷ ws) =
    let rest = check_workers (w.name ∷ seen) ws in
    if is_empty w.name || not w.has_run
    then incomplete_worker
    else if member w.name seen
    then duplicate_worker
    else rest

-- `New`, for a timeout that is 0 where it is not positive.
unfoldable pub new_supervisor : List Worker → ℕ → SupervisorCheck
unfolding check_workers
new_supervisor workers drain_timeout =
    if is_empty workers
    then no_workers
    else if drain_timeout == 0
    then no_drain_timeout
    else check_workers [] workers

-- What a turn of the loop of `Watchdog` waits for: the context's end, or a tick and what its probe finds.
pub data WatchEvent : Type 0 where
  context_done probe_succeeded probe_failed : WatchEvent

-- `failed` holds the failures that its error names; `running` is a loop that has not returned.
pub data WatchOutcome : Type 0 where
  invalid_configuration context_ended running : WatchOutcome
  failed : ℕ → WatchOutcome

-- The loop of `Watchdog`, after `failures` in a row.
unfoldable pub watch : ℕ → ℕ → List WatchEvent → WatchOutcome
watch threshold failures [] = running
watch threshold failures (context_done ∷ events) = context_ended
watch threshold failures (probe_succeeded ∷ events) = watch threshold 0 events
watch threshold failures (probe_failed ∷ events) =
    let rest = watch threshold (suc failures) events in
    if leb threshold (suc failures) then failed (suc failures) else rest

-- `Watchdog`, for an interval and a threshold that are 0 where they are not positive.
unfoldable pub watchdog : ℕ → ℕ → Bool → List WatchEvent → WatchOutcome
unfolding watch
watchdog interval threshold has_probe events =
    if interval == 0 || threshold == 0 || not has_probe
    then invalid_configuration
    else watch threshold 0 events
