-- ===== src/State/Manager/Publication.antt =====
-- internal/state/manager.go: `Commit`, which publishes a refreshed snapshot.
use kfadapter.Base.{
  ℕ, Bool, true, false, ◌&&◌, not, Option, none, some, length, any, leb, ◌==◌, if◌then◌else◌,
}
use kfadapter.Base.Bytes.{Bytes}
use kfadapter.State.Types.{
  ServiceState, signed_out, authenticating, syncing, ready, degraded, expired, error,
  RuntimeSnapshot, StateError, account_changed, invalid_snapshot, invalid_transition,
  tunnel_eligible,
}
use kfadapter.State.Sessions.{sessions_valid, user_id}
use kfadapter.State.Snapshot.{validate_runtime_snapshot}
use kfadapter.State.Binding.{sha256_size, matches_account_binding}
use kfadapter.State.Manager.{Manager}

abbrev pub may_publish : ServiceState → Bool
may_publish authenticating = true
may_publish syncing = true
may_publish ready = true
may_publish degraded = true
may_publish signed_out = false
may_publish expired = false
may_publish error = false

abbrev pub published : ServiceState → ServiceState
published authenticating = ready
published syncing = ready
published s = s

-- `current != nil && next <= current.Generation`
abbrev pub stale : Option RuntimeSnapshot → ℕ → Bool
stale none generation = false
stale (some s) generation = leb generation s.generation

module _ (hmac : Bytes → Bytes → Bytes) where
  -- Whether the installed subscription is bound to an account.
  unfoldable pub bound_to : Manager → Bytes → Bool
  bound_to m user =
      m.binding_key_configured
      && not (m.subscription.generation == 0)
      && length m.subscription.account_binding == sha256_size
      && matches_account_binding hmac m.subscription.account_binding m.account_binding_key user

  unfoldable pub commit_locked : RuntimeSnapshot → Manager → Manager × Option StateError
  unfolding bound_to
  commit_locked s m =
      if not (may_publish m.state)
      then (m, some invalid_transition)
      else if stale m.runtime s.generation
      then (m, some invalid_snapshot)
      else if not (bound_to m (user_id s.sessions))
      then (m, some account_changed)
      else (record m { runtime = some s; state = published m.state }, none)

  unfoldable pub commit : (ℕ → ℕ) → RuntimeSnapshot → Manager → Manager × Option StateError
  unfolding commit_locked
  commit clock s m = elim (validate_runtime_snapshot clock s) [
    | some e ↦ (m, some e)
    | none ↦
        if not (sessions_valid s.sessions)
        then (m, some invalid_snapshot)
        else if not (any tunnel_eligible s.nodes)
        then (m, some invalid_snapshot)
        else commit_locked s m
  ]
