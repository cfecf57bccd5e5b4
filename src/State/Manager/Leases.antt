-- ===== src/State/Manager/Leases.antt =====
-- The exclusive lease of `Begin`: who holds it, who can give it back, and that an old one is void.
use kfadapter.Base.{
  ℕ, suc, ◌+◌, ◌^◌, ◌≡◌, ◌≢◌, ◌≤◌, ◌<◌, Bool, true, false, ◌&&◌, not, List, [], ◌∷◌, none, some,
  arith, ◌⊎◌, ◌==◌,
}
use kfadapter.Base.Bytes.{Bytes}
use kfadapter.State.Types.{
  signed_out, authenticating, syncing, degraded, expired, error, Operation, login, refresh, Outcome,
  succeeded, RuntimeSnapshot, Result, ok, err, operation_in_progress,
}
use kfadapter.State.Sessions.{sessions_valid}
use kfadapter.State.Manager.{
  Manager, Lease, u64, begin, begin_target, sign_out, sign_out_view, expire_view, finish, release,
  configure_binding_key, mark_expired, transition, same_operation,
}
use kfadapter.State.Manager.Publication.{commit}
use kfadapter.State.Manager.Setup.{install_subscription_generation, rollback}
use kfadapter.State.Manager.Trace.{
  Call, configures, begins, finishes, moves, commits, signs_out, expires, installs, rolls_back,
  step, run,
}

-- What `Begin` does: it fails while an operation is active, and otherwise moves a signed-out, expired
-- or failed manager to authenticating, or a ready or degraded one to syncing, under a new number.
pub begin_lem :
    (operation : Operation) (m m' : Manager) (l : Lease)
    → begin operation m ≡ ok (m', l)
    → (m.active ≡ none)
      × (begin_target operation m.state ≡ some m'.state)
      × (m'.active ≡ some operation)
      × (m'.lease ≡ u64 (suc m.lease))
      × (l ≡ record { number = m'.lease; operation = operation; fired = false })
      × (m'.runtime ≡ m.runtime)
unfolding begin
begin_lem operation m m' l h = ground arith

-- How far a call moves the lease counter.
bump_begin : {A : Type 0} → Result A → ℕ
bump_begin (ok a) = 1
bump_begin (err e) = 0

unfoldable pub bump : Manager → Call → ℕ
unfolding bump_begin
bump m (begins operation) = bump_begin (begin operation m)
bump m signs_out = 1
bump m _ = 0

unfoldable pub bumps : (Bytes → Bytes → Bytes) → Manager → List Call → ℕ
bumps hmac m [] = 0
bumps hmac m (c ∷ cs) = bump m c + bumps hmac (step hmac m c) cs

-- Each call moves the counter by its bump, modulo 2 ^ 64.
step-lease :
    (hmac : Bytes → Bytes → Bytes) (m : Manager) (c : Call)
    → m.lease < 2 ^ 64
    → (step hmac m c).lease ≡ u64 (m.lease + bump m c)
unfolding step bump
step-lease hmac m (configures key) b = unfold configure_binding_key in ground arith
step-lease hmac m (begins operation) b = unfold begin in ground arith
step-lease hmac m (finishes clock number operation outcome) b = unfold finish in ground arith
step-lease hmac m (moves next) b = unfold transition in ground arith
step-lease hmac m (commits clock s) b = unfold commit in ground arith
step-lease hmac m signs_out b = unfold sign_out in ground arith
step-lease hmac m (expires now) b = unfold mark_expired in ground arith
step-lease hmac m (installs candidate user) b =
    unfold install_subscription_generation in ground arith
step-lease hmac m (rolls_back r) b = unfold rollback in ground arith

run-lease :
    (hmac : Bytes → Bytes → Bytes) (m : Manager) (cs : List Call)
    → m.lease < 2 ^ 64
    → (run hmac m cs).lease ≡ u64 (m.lease + bumps hmac m cs)
unfolding run bumps
run-lease hmac m [] b = omega arith
run-lease hmac m (c ∷ cs) b =
    let e = step-lease hmac m c b in
    omega (arith, e, run-lease hmac (step hmac m c) cs (omega (arith, e)))

finish_other :
    (clock : ℕ → ℕ) (number : ℕ) (operation : Operation) (outcome : Outcome) (m : Manager)
    → m.lease ≢ number
    → finish clock number operation outcome m ≡ m
unfolding finish
finish_other clock number operation outcome m h = ground arith

-- A lease that `SignOut` revoked, or that a later `Begin` replaced, is void: as long as the counter
-- has moved at least once and fewer than 2 ^ 64 times since the lease's number was current, calling
-- its function changes nothing, whatever has happened in between.
pub release_stale :
    (hmac : Bytes → Bytes → Bytes) (m : Manager) (cs : List Call) (clock : ℕ → ℕ)
    (outcome : Outcome) (l : Lease)
    → m.lease < 2 ^ 64
    → l.number ≡ m.lease
    → 0 < bumps hmac m cs
    → bumps hmac m cs < 2 ^ 64
    → (release clock outcome l (run hmac m cs)).1 ≡ run hmac m cs
unfolding release
release_stale hmac m cs clock outcome l b e lo hi = ground (
  arith,
  finish_other clock l.number l.operation outcome (run hmac m cs)
      (λ same. omega (arith, run-lease hmac m cs b)),
)

-- Whether a call may take a lease away: a sign-out, or a finish under its number and operation.
abbrev pub revokes : ℕ → Operation → Call → Bool
revokes number operation signs_out = true
revokes number operation (finishes clock k o outcome) =
    k == number && same_operation (some operation) o
revokes number operation _ = false

abbrev pub none_revokes : ℕ → Operation → List Call → Bool
none_revokes number operation [] = true
none_revokes number operation (c ∷ cs) =
    not (revokes number operation c) && none_revokes number operation cs

-- The lease that is held.
pub record Holds (number : ℕ) (operation : Operation) (m : Manager) : Type 0 where
  pub busy : m.active ≡ some operation
  pub current : m.lease ≡ number

step-Holds :
    (hmac : Bytes → Bytes → Bytes) (number : ℕ) (operation : Operation) (m : Manager) (c : Call)
    → revokes number operation c ≡ false
    → Holds number operation m
    → Holds number operation (step hmac m c)
unfolding step
step-Holds hmac number operation m (configures key) r h =
    unfold configure_binding_key in ground arith
step-Holds hmac number operation m (begins o) r h = unfold begin in ground arith
step-Holds hmac number operation m (finishes clock k o outcome) r h = unfold finish in ground arith
step-Holds hmac number operation m (moves next) r h = unfold transition in ground arith
step-Holds hmac number operation m (commits clock s) r h = unfold commit in ground arith
step-Holds hmac number operation m signs_out r h = cc
step-Holds hmac number operation m (expires now) r h = unfold mark_expired in ground arith
step-Holds hmac number operation m (installs candidate user) r h =
    unfold install_subscription_generation in ground arith
step-Holds hmac number operation m (rolls_back x) r h = unfold rollback in ground arith

run-Holds :
    (hmac : Bytes → Bytes → Bytes) (number : ℕ) (operation : Operation) (m : Manager)
    (cs : List Call)
    → none_revokes number operation cs ≡ true
    → Holds number operation m
    → Holds number operation (run hmac m cs)
unfolding run
run-Holds hmac number operation m [] r h = h
run-Holds hmac number operation m (c ∷ cs) r h =
    run-Holds hmac number operation (step hmac m c) cs (ground arith)
      (step-Holds hmac number operation m c (ground arith) h)

begin_busy :
    (other : Operation) (m : Manager) (operation : Operation)
    → m.active ≡ some operation
    → begin other m ≡ err operation_in_progress
unfolding begin
begin_busy other m operation h = ground arith

-- The lease is exclusive: from a successful `Begin` until its own function is called or the manager
-- signs out, every other `Begin` fails with `ErrOperationInProgress`, whatever is called in between.
pub begin_excludes :
    (hmac : Bytes → Bytes → Bytes) (operation other : Operation) (m m' : Manager) (l : Lease)
    (cs : List Call)
    → begin operation m ≡ ok (m', l)
    → none_revokes l.number operation cs ≡ true
    → begin other (run hmac m' cs) ≡ err operation_in_progress
begin_excludes hmac operation other m m' l cs b quiet =
    let (_, _, busy, _, e, _) = begin_lem operation m m' l b in
    begin_busy other (run hmac m' cs) operation
      (run-Holds hmac l.number operation m' cs quiet
        (record { busy = busy; current = ground arith })).busy

-- What the lease's function does when it is called in time: a successful login that is still
-- authenticating goes on to syncing, a failed or cancelled login signs out and wipes the sessions, and
-- a refresh that succeeded leaves all else alone.
pub release_login :
    (clock : ℕ → ℕ) (outcome : Outcome) (l : Lease) (m : Manager)
    → l.fired ≡ false
    → l.operation ≡ login
    → Holds l.number login m
    → let m' = (release clock outcome l m).1 in
      (m'.active ≡ none)
      × ((outcome ≡ succeeded)
            × (m'.runtime ≡ m.runtime)
            × ((m.state ≡ authenticating) × (m'.state ≡ syncing)
                ⊎ (m.state ≢ authenticating) × (m'.state ≡ m.state))
          ⊎ (outcome ≢ succeeded)
            × (m'.state ≡ signed_out)
            × (m'.runtime ≡ sign_out_view m.runtime))
unfolding release
release_login clock outcome l m fresh e h = ground arith

-- When a refresh fails or is cancelled, its function expires the view if its usable sessions have run
-- out, keeps serving it as degraded if they last, and reports an error if there are none.
pub release_refresh_failed :
    (clock : ℕ → ℕ) (outcome : Outcome) (l : Lease) (m : Manager) (s : RuntimeSnapshot)
    → l.fired ≡ false
    → l.operation ≡ refresh
    → Holds l.number refresh m
    → outcome ≢ succeeded
    → m.runtime ≡ some s
    → let m' = (release clock outcome l m).1 in
      (m'.active ≡ none)
      × (((sessions_valid s.sessions ≡ true)
            × (0 < s.expires_at)
            × (s.expires_at ≤ clock 0)
            × (m'.state ≡ expired)
            × (m'.runtime ≡ expire_view (clock 1) (some s)))
          ⊎ ((sessions_valid s.sessions ≡ true)
              × ((s.expires_at ≡ 0) ⊎ (clock 0 < s.expires_at))
              × (m'.state ≡ degraded)
              × (m'.runtime ≡ some s))
          ⊎ ((sessions_valid s.sessions ≡ false) × (m'.state ≡ error) × (m'.runtime ≡ some s)))
unfolding release
release_refresh_failed clock outcome l m s fresh e h bad view = ground arith
