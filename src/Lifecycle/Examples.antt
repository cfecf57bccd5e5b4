-- ===== src/Lifecycle/Examples.antt =====
-- A watchdog of internal/lifecycle/supervisor.go that a success puts back once, and two supervisors.
use kfadapter.Base.{◌≡◌, refl, true, [], ◌∷◌, arith}
use kfadapter.Lifecycle.{
  Worker, duplicate_worker, new_supervisor, probe_succeeded, probe_failed, failed, watchdog,
}
use kfadapter.Lifecycle.Watchdog.{watchdog-expected}

watchdog-expected_example :
    watchdog 5 2 true (probe_failed ∷ probe_succeeded ∷ probe_failed ∷ probe_failed ∷ []) ≡ failed 2
watchdog-expected_example =
    watchdog-expected 5 2 (probe_failed ∷ probe_succeeded ∷ probe_failed ∷ probe_failed ∷ [])
      (omega arith) (omega arith)

abbrev server : Worker
server = record { name = 115 ∷ []; has_run = true }

a_second_worker_of_a_name : new_supervisor (server ∷ server ∷ []) 30 ≡ duplicate_worker
unfolding new_supervisor
a_second_worker_of_a_name = refl
