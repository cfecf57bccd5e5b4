-- ===== src/State/Manager/Setup.antt =====
-- internal/state/manager.go: building a manager, installing a subscription generation, and the
-- redacted views.
use kfadapter.Base.{
  ℕ, suc, Bool, true, false, ◌&&◌, ◌||◌, not, List, [], ◌∷◌, Option, none, some, is_empty, length,
  ltb, ◌==◌, if◌then◌else◌,
}
use kfadapter.Base.Bytes.{Bytes, bytes_eq}
use kfadapter.State.Types.{
  ServiceState, signed_out, authenticating, syncing, ready, degraded, expired, error, Node,
  RuntimeSnapshot, AccountSummary, no_account, StateError, account_changed, Result, ok, err,
  tunnel_eligible,
}
use kfadapter.State.Sessions.{user_id, wiped}
use kfadapter.State.Snapshot.{validate_runtime_snapshot, session_usable}
use kfadapter.State.Binding.{
  SubscriptionGeneration, sha256_size, validate_subscription_generation, matches_account_binding,
  same_subscription_credentials, same_subscription_generation, rotated_subscription_material,
}
use kfadapter.State.Manager.{Manager, usable, u64}

pub data BindingStatus : Type 0 where
  unbound match mismatch : BindingStatus

-- `Status`
pub record Status : Type 0 where
  pub state : ServiceState
  pub generation : ℕ
  pub created_at : ℕ
  pub expires_at : ℕ
  pub account : AccountSummary
  pub node_total : ℕ
  pub eligible : ℕ

count_eligible : List Node → ℕ
count_eligible [] = 0
count_eligible (n ∷ ns) = if tunnel_eligible n then suc (count_eligible ns) else count_eligible ns

status_of : ServiceState → Option RuntimeSnapshot → Status
unfolding count_eligible
status_of state none = record {
  state = state;
  generation = 0;
  created_at = 0;
  expires_at = 0;
  account = no_account;
  node_total = 0;
  eligible = 0;
}
status_of state (some s) = record {
  state = state;
  generation = s.generation;
  created_at = s.created_at;
  expires_at = s.expires_at;
  account = s.account;
  node_total = length s.nodes;
  eligible = count_eligible s.nodes;
}

-- `Status` reads twice: the state under the lock, then the view of the manager as it is by then.
unfoldable pub status : Manager → Manager → Status
unfolding status_of
status locked later = status_of locked.state later.runtime

-- The function that `InstallSubscriptionGeneration` returns.
pub record Rollback : Type 0 where
  pub candidate : SubscriptionGeneration
  pub previous : SubscriptionGeneration
  pub fired : Bool

abbrev may_install : ServiceState → Bool
may_install authenticating = true
may_install syncing = true
may_install signed_out = false
may_install ready = false
may_install degraded = false
may_install expired = false
may_install error = false

-- The `switch` on the current subscription: whether the candidate may follow it.
unfoldable pub follows : SubscriptionGeneration → SubscriptionGeneration → Bool
follows current candidate =
    if current.generation == 0
    then true
    else if is_empty current.account_binding
        || bytes_eq current.account_binding candidate.account_binding
    then candidate.generation == current.generation
      && same_subscription_credentials current candidate
    else candidate.generation == u64 (suc current.generation)
      && rotated_subscription_material current candidate

unfoldable pub rollback : Rollback → Manager → Rollback × Manager
rollback r m = if r.fired then (r, m) else (
  record r { fired = true },
  if same_subscription_generation m.subscription r.candidate
      then record m { subscription = r.previous }
      else m,
)

-- The view that `NewManagerWithSubscription` publishes: a snapshot from the future is dropped, and
-- one that is not usable loses its sessions and lives until now at most.
prepared : ℕ → Option RuntimeSnapshot → Option RuntimeSnapshot
prepared now none = none
prepared now (some s) =
    if ltb now s.created_at
    then none
    else if session_usable s now
    then some s
    else some (record s {
      sessions = wiped;
      expires_at = if ltb now s.expires_at then now else s.expires_at;
    })

invalid_store : (ℕ → ℕ) → Option RuntimeSnapshot → Option StateError
invalid_store clock none = none
invalid_store clock (some s) = validate_runtime_snapshot clock s

has_nodes : Option RuntimeSnapshot → Bool
has_nodes none = false
has_nodes (some s) = not (is_empty s.nodes)

abbrev fresh : Option RuntimeSnapshot → SubscriptionGeneration → Bytes → ServiceState → Manager
fresh view subscription key state = record {
  runtime = view;
  state = state;
  active = none;
  lease = 0;
  subscription = subscription;
  account_binding_key = key;
  binding_key_configured = length key == sha256_size;
}

module _ (hmac : Bytes → Bytes → Bytes) where
  unfoldable pub install_subscription_generation :
      SubscriptionGeneration → Bytes → Manager → Result (Manager × Rollback)
  unfolding follows
  install_subscription_generation candidate user m =
      if not (validate_subscription_generation candidate)
      then err account_changed
      else if not (may_install m.state)
          || not m.binding_key_configured
          || not (length m.account_binding_key == sha256_size)
          || not (length candidate.account_binding == sha256_size)
          || not (matches_account_binding hmac candidate.account_binding m.account_binding_key user)
      then err account_changed
      else if not (follows m.subscription candidate)
      then err account_changed
      else ok (
        record m { subscription = candidate },
        record { candidate = candidate; previous = m.subscription; fired = false },
      )

  unfoldable pub account_binding_status : Bytes → Manager → BindingStatus
  account_binding_status user m =
      if not m.binding_key_configured
        || m.subscription.generation == 0
        || is_empty m.subscription.account_binding
      then unbound
      else if matches_account_binding hmac m.subscription.account_binding m.account_binding_key user
      then match
      else mismatch

  -- Whether a usable initial snapshot belongs to the bound account.
  restored : SubscriptionGeneration → Bytes → Option RuntimeSnapshot → Bool
  restored subscription key none = true
  restored subscription key (some s) =
      length key == sha256_size
      && not (subscription.generation == 0)
      && length subscription.account_binding == sha256_size
      && matches_account_binding hmac subscription.account_binding key (user_id s.sessions)

  unfoldable pub new_manager_with_subscription :
      (ℕ → ℕ) → Option RuntimeSnapshot → SubscriptionGeneration → Bytes → Result Manager
  unfolding prepared invalid_store has_nodes restored
  new_manager_with_subscription clock initial subscription key =
      let view = prepared (clock 0) initial in
      let manager = fresh view subscription key in
      if not (is_empty key) && not (length key == sha256_size)
      then err account_changed
      else if not (subscription.generation == 0)
          && not (validate_subscription_generation subscription)
      then err account_changed
      else if not (is_empty subscription.account_binding) && not (length key == sha256_size)
      then err account_changed
      else elim (invalid_store (λ k. clock (suc k)) view) [
        | some e ↦ err e
        | none ↦
            if usable initial (clock 0)
            then if restored subscription key initial
              then ok (manager ready)
              else err account_changed
            else if has_nodes view
            then ok (manager expired)
            else ok (manager signed_out)
      ]
