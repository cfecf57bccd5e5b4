-- ===== src/State/Manager.antt =====
-- internal/state/manager.go: the manager, each method as a function of the manager's fields. The mutex
-- makes each method one step; a closure that a method returns is a record of what it captured, with
-- the `sync.Once` as a flag. `hmac` stands for HMAC-SHA256, and `clock k` is the k-th reading of
-- `time.Now` within a call.
pub mod Leases
pub mod Admission
pub mod Publication
pub mod Trace
pub mod Views
pub mod Pins
pub mod Publish
pub mod Diagram
pub mod Installation
pub mod Setup
use kfadapter.Base.{
  ℕ, zero, suc, ◌+◌, ◌%◌, ◌^◌, ◌≡◌, refl, Bool, true, false, ◌&&◌, ◌||◌, not, List, [], ◌∷◌, Option,
  none, some, is_empty, length, any, leb, ltb, ◌==◌, if◌then◌else◌,
}
use kfadapter.Base.Bytes.{Bytes, bytes_eq}
use kfadapter.State.Types.{
  ServiceState, signed_out, authenticating, syncing, ready, degraded, expired, error, Operation,
  login, refresh, other_operation, Outcome, succeeded, failed, cancelled, Node, NodeRef,
  SessionSecrets, RuntimeSnapshot, no_account, StateError, account_changed,
  binding_key_already_configured, invalid_snapshot, invalid_transition, operation_in_progress,
  selector_unknown, Result, ok, err, effective_client_profile, tunnel_eligible,
}
use kfadapter.State.Sessions.{
  sessions_valid, user_id, session_for, wiped, same_session_authority, same_client_sessions,
}
use kfadapter.State.Snapshot.{resolve_selector, validate_runtime_snapshot, session_usable}
use kfadapter.State.Binding.{
  SubscriptionGeneration, sha256_size, validate_subscription_generation, matches_account_binding,
  same_subscription_credentials, same_subscription_generation, rotated_subscription_material,
}

pub record Manager : Type 0 where
  pub runtime : Option RuntimeSnapshot
  pub state : ServiceState
  pub active : Option Operation
  pub lease : ℕ  -- uint64
  pub subscription : SubscriptionGeneration
  pub account_binding_key : Bytes
  pub binding_key_configured : Bool

-- uint64
abbrev pub u64 : ℕ → ℕ
u64 n = n % 2 ^ 64

-- `m.state == StateReady || m.state == StateDegraded || m.state == StateSyncing`
abbrev pub serves : ServiceState → Bool
serves ready = true
serves degraded = true
serves syncing = true
serves signed_out = false
serves authenticating = false
serves expired = false
serves error = false

abbrev pub usable : Option RuntimeSnapshot → ℕ → Bool
usable none now = false
usable (some s) now = session_usable s now

unfoldable pub configure_binding_key : Bytes → Manager → Manager × Option StateError
configure_binding_key key m =
    if not (length key == sha256_size)
    then (m, some account_changed)
    else if m.binding_key_configured
    then (m, some binding_key_already_configured)
    else (record m { account_binding_key = key; binding_key_configured = true }, none)

abbrev pub begin_target : Operation → ServiceState → Option ServiceState
begin_target login signed_out = some authenticating
begin_target login expired = some authenticating
begin_target login error = some authenticating
begin_target login _ = none
begin_target refresh ready = some syncing
begin_target refresh degraded = some syncing
begin_target refresh _ = none
begin_target (other_operation s) _ = none

-- The function that `Begin` returns.
pub record Lease : Type 0 where
  pub number : ℕ
  pub operation : Operation
  pub fired : Bool

begin_to : Operation → Manager → Option ServiceState → Result (Manager × Lease)
begin_to operation m none = err invalid_transition
begin_to operation m (some target) =
    let next = u64 (suc m.lease) in
    ok (
      record m { state = target; active = some operation; lease = next },
      record { number = next; operation = operation; fired = false },
    )

begin_idle : Operation → Manager → Option Operation → Result (Manager × Lease)
unfolding begin_to
begin_idle operation m (some busy) = err operation_in_progress
begin_idle operation m none = begin_to operation m (begin_target operation m.state)

unfoldable pub begin : Operation → Manager → Result (Manager × Lease)
unfolding begin_idle
begin operation m = begin_idle operation m m.active

abbrev pub sign_out_view : Option RuntimeSnapshot → Option RuntimeSnapshot
sign_out_view none = none
sign_out_view (some s) = some (record s { sessions = wiped; account = no_account })

unfoldable pub sign_out_locked : Manager → Manager
sign_out_locked m = record m { runtime = sign_out_view m.runtime; state = signed_out }

unfoldable pub sign_out : Manager → Manager
unfolding sign_out_locked
sign_out m = sign_out_locked (record m { active = none; lease = u64 (suc m.lease) })

abbrev pub expire_view : ℕ → Option RuntimeSnapshot → Option RuntimeSnapshot
expire_view now none = none
expire_view now (some s) = some (record s { expires_at = now; sessions = wiped })

unfoldable pub expire_locked : ℕ → Manager → Manager
expire_locked now m = record m { runtime = expire_view now m.runtime; state = expired }

unfoldable pub mark_expired : ℕ → Manager → Manager × Option StateError
unfolding expire_locked
mark_expired now m = elim m.state [
  | expired ↦ (expire_locked now m, none)
  | ready ↦ (expire_locked now m, none)
  | degraded ↦ (expire_locked now m, none)
  | syncing ↦ (expire_locked now m, none)
  | error ↦ (expire_locked now m, none)
  | signed_out ↦ (m, some invalid_transition)
  | authenticating ↦ (m, some invalid_transition)
]

-- A refresh that did not succeed: expired, degraded, or in error without usable sessions.
refresh_failed : (ℕ → ℕ) → Option RuntimeSnapshot → Manager → Manager
unfolding expire_locked
refresh_failed clock none m = record m { state = error }
refresh_failed clock (some s) m =
    if not (sessions_valid s.sessions)
    then record m { state = error }
    else if not (s.expires_at == 0) && not (ltb (clock 0) s.expires_at)
    then expire_locked (clock 1) m
    else record m { state = degraded }

abbrev same_operation : Option Operation → Operation → Bool
same_operation none o = false
same_operation (some login) login = true
same_operation (some refresh) refresh = true
same_operation (some (other_operation s)) (other_operation t) = bytes_eq s t
same_operation (some _) _ = false

login_finished : ServiceState → ServiceState
login_finished authenticating = syncing
login_finished s = s

finish_as : (ℕ → ℕ) → Operation → Outcome → Manager → Manager
unfolding refresh_failed login_finished sign_out_locked
finish_as clock login succeeded m = record m { state = login_finished m.state }
finish_as clock refresh succeeded m = m
finish_as clock (other_operation s) succeeded m = m
finish_as clock login _ m = sign_out_locked m
finish_as clock refresh _ m = refresh_failed clock m.runtime m
finish_as clock (other_operation s) _ m = refresh_failed clock m.runtime m

unfoldable pub finish : (ℕ → ℕ) → ℕ → Operation → Outcome → Manager → Manager
unfolding finish_as
finish clock lease operation outcome m =
    if not (m.lease == lease) || not (same_operation m.active operation)
    then m
    else finish_as clock operation outcome (record m { active = none })

-- A call of the function that `Begin` returned.
unfoldable pub release : (ℕ → ℕ) → Outcome → Lease → Manager → Lease × Manager
unfolding finish
release clock outcome l m =
    if l.fired
    then (l, m)
    else (record l { fired = true }, finish clock l.number l.operation outcome m)

abbrev pub valid_transition : ServiceState → ServiceState → Bool
valid_transition signed_out authenticating = true
valid_transition authenticating syncing = true
valid_transition authenticating ready = true
valid_transition authenticating signed_out = true
valid_transition authenticating error = true
valid_transition syncing ready = true
valid_transition syncing degraded = true
valid_transition syncing expired = true
valid_transition syncing error = true
valid_transition syncing signed_out = true
valid_transition ready syncing = true
valid_transition ready degraded = true
valid_transition ready expired = true
valid_transition ready signed_out = true
valid_transition degraded syncing = true
valid_transition degraded ready = true
valid_transition degraded expired = true
valid_transition degraded signed_out = true
valid_transition degraded error = true
valid_transition expired authenticating = true
valid_transition expired signed_out = true
valid_transition error authenticating = true
valid_transition error signed_out = true
valid_transition _ _ = false

-- `Transition`; `MarkDegraded` is `transition degraded`.
unfoldable pub transition : ServiceState → Manager → Manager × Option StateError
transition next m =
    if valid_transition m.state next
    then (record m { state = next }, none)
    else (m, some invalid_transition)
