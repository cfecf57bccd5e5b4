-- ===== src/Kuaifan/Refresh/Publication.antt =====
-- internal/kuaifan/refresh.go: login and refresh over the manager. What the two clients answer is an argument,
-- a function of what they are asked; `clock k` and `rclock k` are the readings of the clock by the
-- refresher and by the release of the lease. No other call of the manager runs between.
use kfadapter.Base.{
  ℕ, zero, suc, ◌+◌, ◌≡◌, refl, Bool, true, false, ◌&&◌, ◌||◌, not, List, [], ◌∷◌, Option, none,
  some, is_empty, length, leb, ltb, ◌==◌, if◌then◌else◌,
}
use kfadapter.Base.Bytes.{Bytes}
use kfadapter.State.Types.{
  ServiceState, expired, ready, degraded, syncing, Operation, login, refresh, Outcome, succeeded,
  failed, RuntimeSnapshot, ClientSessions, AccountSummary, StateError, Result, ok, err,
}
use kfadapter.State.Sessions.{sessions_valid, session_eq, no_session}
use kfadapter.State.Manager.{Manager, Lease, begin, transition, release, mark_expired}
use kfadapter.State.Manager.Publication.{commit}
use kfadapter.Selector.Identity as Identity
use kfadapter.Kuaifan.Refresh.{
  LoginSession, CompleteProfile, Builder, RefreshError, Answer, done, fails,
  aggregate_account_display,
}
use kfadapter.Kuaifan.Refresh.Building.{Codes, make_snapshot}
pub mod Published
pub mod Catalogue
pub mod Renewal

abbrev pub CallOutcome : Type 0
CallOutcome = Manager × Option RefreshError

-- What the refresher is made with, and the readings of the clocks. `commit_snapshot` is the function that
-- publishes a snapshot, with its effect on the manager that it shares.
pub record Refresher : Type 0 where
  pub primitives : Identity.Primitives
  pub codes : Codes
  pub builder : Builder
  pub commit_snapshot : RuntimeSnapshot → Manager → CallOutcome
  pub lifetime : ℕ
  pub clock : ℕ → ℕ
  pub rclock : ℕ → ℕ

abbrev pub Sessions : Type 0
Sessions = LoginSession × LoginSession

abbrev pub Profiles : Type 0
Profiles = CompleteProfile × CompleteProfile

-- The two clients: a refresh of the sessions, and the fetch of both catalogues.
pub record Remote : Type 0 where
  pub rotate : ClientSessions → Answer Sessions
  pub log_in : Answer Sessions
  pub fetch : Sessions → Answer Profiles

abbrev pub commit_error : Option StateError → Option RefreshError
commit_error none = none
commit_error (some e) = some (RefreshError.rejected e)

-- The manager's own `Commit`, which `NewRefresher` takes where it is given no other function.
unfoldable pub manager_commit :
    (Bytes → Bytes → Bytes) → (ℕ → ℕ) → RuntimeSnapshot → Manager → CallOutcome
manager_commit hmac mclock s m = let r = commit hmac mclock s m in (r.0, commit_error r.1)

module _ (x : Refresher) where
  unfoldable pub publish_snapshot : Answer RuntimeSnapshot → Manager → CallOutcome
  publish_snapshot (fails e) m = (m, some e)
  publish_snapshot (done s) m = x.commit_snapshot s m

  -- `commit`
  unfoldable pub commit_profiles : Profiles → AccountSummary → Manager → CallOutcome
  unfolding publish_snapshot
  commit_profiles ps account m =
      publish_snapshot
        (make_snapshot x.primitives x.codes x.builder x.clock x.lifetime m.runtime account ps.0
          ps.1)
        m

  unfoldable pub commit_account : Profiles → Answer AccountSummary → Manager → CallOutcome
  unfolding commit_profiles
  commit_account ps (fails e) m = (m, some e)
  commit_account ps (done account) m = commit_profiles ps account m

  unfoldable pub commit_fetched : Bytes → Answer Profiles → Manager → CallOutcome
  unfolding commit_account
  commit_fetched display (fails e) m = (m, some e)
  commit_fetched display (done ps) m =
      commit_account ps (aggregate_account_display display ps.0 ps.1) m

  unfoldable pub commit_rotated : Remote → Bytes → Answer Sessions → Manager → CallOutcome
  unfolding commit_fetched
  commit_rotated remote display (fails e) m = (m, some e)
  commit_rotated remote display (done ss) m = commit_fetched display (remote.fetch ss) m

  unfoldable pub expire_if_needed : ℕ → Manager → Manager × Answer Bool
  expire_if_needed now m = elim m.runtime [
    | none ↦ (m, done false)
    | some s ↦
        if s.expires_at == 0 || ltb now s.expires_at then (m, done false) else (elim m.state [
          | expired ↦ (m, done true)
          | ready ↦
              (let r = mark_expired now m in
                (r.0, elim r.1 [ none ↦ done true | some e ↦ fails (RefreshError.rejected e) ]))
          | degraded ↦
              (let r = mark_expired now m in
                (r.0, elim r.1 [ none ↦ done true | some e ↦ fails (RefreshError.rejected e) ]))
          | _ ↦ (m, fails RefreshError.authority_expired)
        ])
  ]

  -- The part of `Refresh` under the lease.
  unfoldable pub refresh_current : Remote → Option RuntimeSnapshot → Manager → CallOutcome
  unfolding commit_rotated
  refresh_current remote none m = (m, some RefreshError.no_session)
  refresh_current remote (some s) m =
      if not (sessions_valid s.sessions) || session_eq s.sessions.windows_session no_session
      then (m, some RefreshError.no_session)
      else commit_rotated remote s.account.display (remote.rotate s.sessions) m

  abbrev pub outcome_of : Option RefreshError → Outcome
  outcome_of none = succeeded
  outcome_of (some e) = failed

  -- The deferred call of the function that `Begin` returned.
  unfoldable pub complete : Lease → CallOutcome → CallOutcome
  complete l r = ((release x.rclock (outcome_of r.1) l r.0).1, r.1)

  unfoldable pub refresh_begun : Remote → Manager → Result (Manager × Lease) → CallOutcome
  unfolding refresh_current complete
  refresh_begun remote m (err e) = (m, some (RefreshError.rejected e))
  refresh_begun remote m (ok (b, l)) = complete l (refresh_current remote b.runtime b)

  unfoldable pub refresh_after : Remote → Answer Bool → Manager → CallOutcome
  unfolding refresh_begun
  refresh_after remote (fails e) m = (m, some e)
  refresh_after remote (done true) m = (m, some RefreshError.authority_expired)
  refresh_after remote (done false) m = refresh_begun remote m (begin refresh m)

  -- `Refresh`.
  unfoldable pub refresh_account : Remote → ℕ → Manager → CallOutcome
  unfolding expire_if_needed refresh_after
  refresh_account remote now m = let r = expire_if_needed now m in refresh_after remote r.1 r.0

  unfoldable pub login_syncing :
      Remote → Bytes → Sessions → Manager × Option StateError → CallOutcome
  unfolding commit_fetched
  login_syncing remote display ss (m, some e) = (m, some (RefreshError.rejected e))
  login_syncing remote display ss (m, none) = commit_fetched display (remote.fetch ss) m

  unfoldable pub login_sessions : Remote → Bytes → Answer Sessions → Manager → CallOutcome
  unfolding login_syncing
  login_sessions remote display (fails e) m = (m, some e)
  login_sessions remote display (done ss) m = login_syncing remote display ss (transition syncing m)

  unfoldable pub login_begun : Remote → Bytes → Manager → Result (Manager × Lease) → CallOutcome
  unfolding login_sessions complete
  login_begun remote display m (err e) = (m, some (RefreshError.rejected e))
  login_begun remote display m (ok (b, l)) =
      complete l (login_sessions remote display remote.log_in b)

  -- `Login`; `display` is the redacted account.
  unfoldable pub login_account : Remote → Bytes → Manager → CallOutcome
  unfolding login_begun
  login_account remote display m = login_begun remote display m (begin login m)
