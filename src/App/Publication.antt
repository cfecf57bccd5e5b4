-- ===== src/App/Publication.antt =====
-- internal/app/runtime.go: `CommitControlSnapshotLocked`, the function that the program gives the refresher
-- to publish a snapshot, and `PrepareRuntimeCommit` of internal/subscription/service.go, which it calls.
-- A context is not done. Whether `CommitRuntimeSnapshot` stored what it was given is an argument. An error of
-- the service or the coordinator is `not_committed`.
use kfadapter.Base.{
  ℕ, ◌≡◌, refl, Bool, true, false, ◌||◌, not, [], Option, none, some, is_empty, if◌then◌else◌,
}
use kfadapter.Base.Bytes.{Bytes}
use kfadapter.Base.Text.{trim_space}
use kfadapter.State.Types.{RuntimeSnapshot, Result, ok, err}
use kfadapter.State.Sessions.{sessions_valid, user_id}
use kfadapter.State.Binding.{SubscriptionGeneration}
use kfadapter.State.Manager.{Manager}
use kfadapter.State.Manager.Publication.{commit}
use kfadapter.State.Manager.Setup.{Rollback, install_subscription_generation, rollback}
use kfadapter.State.Persistent as Persistent
use kfadapter.State.Persistent.{PersistentState}
use kfadapter.State.Persistent.Account.{ensure_subscription_account_binding}
use kfadapter.Selector.Identity as Identity
use kfadapter.Kuaifan.Refresh.{RefreshError}
use kfadapter.Kuaifan.Refresh.Publication.{CallOutcome}
use kfadapter.App.Coordinator.{Coordinator, Undo, Installed, install_generation, undo_installation}
pub mod Settled
pub mod Renewal
mod Examples

-- What the publication reads: the two parts of the runtime, and the readings of the clocks by the manager's
-- commit, the coordinator and the service.
pub record Runtime : Type 0 where
  pub alive : Bool
  pub primitives : Persistent.Primitives
  pub selector_primitives : Identity.Primitives
  pub coordinator : Coordinator
  pub stored : Option PersistentState
  pub random : ℕ → Option Bytes
  pub persists : SubscriptionGeneration → RuntimeSnapshot → Bool
  pub mclock : ℕ → ℕ
  pub coordinator_now : ℕ
  pub service_now : ℕ

pub record Commitment : Type 0 where
  pub manager : Manager
  pub coordinator : Coordinator
  pub failure : Option RefreshError

module _ (w : Runtime) where
  abbrev pub planned : Persistent.Answer (Bool × PersistentState) → Option SubscriptionGeneration
  planned (Persistent.done (changed, p)) = some p.subscription
  planned (Persistent.fails e) = none

  -- `PrepareRuntimeCommit`: the generation of the plan.
  unfoldable pub prepare_runtime_commit : Bytes → Option SubscriptionGeneration
  prepare_runtime_commit user = if is_empty (trim_space user) then none else elim w.stored [
    | none ↦ none
    | some p ↦
        planned (ensure_subscription_account_binding w.primitives w.random user w.service_now p)
  ]

  -- `abort`: both rollbacks, the coordinator's first.
  unfoldable pub abort : Rollback → Undo → Manager → Coordinator → RefreshError → Commitment
  abort back undo m c e = record {
    manager = (rollback back m).1;
    coordinator = (undo_installation undo c).1;
    failure = some e;
  }

  unfoldable pub commit_rebuilt : Rollback → Installed → Manager → Commitment
  unfolding abort
  commit_rebuilt back i m =
      let r = commit w.primitives.hmac w.mclock i.next m in
      elim r.1 [
        | none ↦ record { manager = r.0; coordinator = i.after; failure = none }
        | some e ↦ abort back i.undo r.0 i.after (RefreshError.rejected e)
      ]

  unfoldable pub commit_installed :
      SubscriptionGeneration → Rollback → Manager → Identity.Result Installed → Commitment
  unfolding commit_rebuilt
  commit_installed g back m (Identity.err e) = record {
    manager = (rollback back m).1;
    coordinator = w.coordinator;
    failure = some RefreshError.not_committed;
  }
  commit_installed g back m (Identity.ok i) =
      if w.persists g i.next
      then commit_rebuilt back i m
      else abort back i.undo m i.after RefreshError.not_committed

  abbrev pub refused_commit : Manager → RefreshError → Commitment
  refused_commit m e = record { manager = m; coordinator = w.coordinator; failure = some e }

  unfoldable pub commit_planned :
      RuntimeSnapshot → SubscriptionGeneration → Manager → Result (Manager × Rollback) → Commitment
  unfolding commit_installed
  commit_planned s g m (err e) = refused_commit m (RefreshError.rejected e)
  commit_planned s g m (ok (n, back)) =
      commit_installed g back n
        (install_generation w.selector_primitives g s w.coordinator_now w.coordinator)

  unfoldable pub commit_prepared :
      RuntimeSnapshot → Manager → Option SubscriptionGeneration → Commitment
  unfolding commit_planned
  commit_prepared s m none = refused_commit m RefreshError.not_committed
  commit_prepared s m (some g) =
      commit_planned s g m
        (install_subscription_generation w.primitives.hmac g (user_id s.sessions) m)

  -- `CommitControlSnapshotLocked`
  unfoldable pub commit_control_snapshot : RuntimeSnapshot → Manager → Commitment
  unfolding commit_prepared
  commit_control_snapshot s m =
      if not (sessions_valid s.sessions) || not w.alive
      then refused_commit m RefreshError.not_committed
      else commit_prepared s m (prepare_runtime_commit (user_id s.sessions))

  -- What the refresher sees of it.
  abbrev pub publisher : RuntimeSnapshot → Manager → CallOutcome
  publisher s m = let r = commit_control_snapshot s m in (r.manager, r.failure)
