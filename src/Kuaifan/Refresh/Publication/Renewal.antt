-- ===== src/Kuaifan/Refresh/Publication/Renewal.antt =====
-- A login or a refresh publishes a next generation, or leaves the catalogue that is in force, whichever
-- function publishes.
use kfadapter.Base.Bytes.{Bytes}
use kfadapter.State.Types.{login, authenticating, RuntimeSnapshot}
use kfadapter.State.Binding.{SubscriptionGeneration}
use kfadapter.State.Manager.{transition}
use kfadapter.Kuaifan.Refresh.Publication.{
  login_sessions, login_syncing, login_begun, login_account, commit_fetched, Sessions,
}
use kfadapter.Kuaifan.Refresh.Publication.Published.{Settled, commit_fetched-Renews}
use kfadapter.Base.{
  ℕ, ◌≡◌, ◌⊎◌, refl, subst, ◌∙◌, Bool, true, false, none, some, arith, Option-cases, inl, inr,
}
use kfadapter.State.Types.{syncing, Operation, refresh, Result, ok, err}
use kfadapter.State.Manager.{Manager, Lease, begin, begin_target, mark_expired}
use kfadapter.Kuaifan.Refresh.{RefreshError, Answer, done, fails}
use kfadapter.Kuaifan.Refresh.Building.{next_generation}
use kfadapter.Kuaifan.Refresh.Publication.{
  Refresher, Remote, CallOutcome, expire_if_needed, refresh_current, complete, refresh_begun,
  refresh_after, refresh_account,
}
use kfadapter.State.Manager.Leases.{begin_lem}
use kfadapter.Kuaifan.Refresh.Publication.Catalogue.{
  SameAccount, IsRenewed, Refreshed, IsUnchanged, failed-IsUnchanged, refresh_current-Renews,
  complete-Refreshed, expire_if_needed-catalogue,
}

begin_refresh-syncing :
    (m b : Manager) → begin_target refresh m.state ≡ some b.state → b.state ≡ syncing
begin_refresh-syncing m b e = ground arith

begin-SameAccount :
    (o : Operation) (m b : Manager) (l : Lease) → begin o m ≡ ok (b, l) → SameAccount b m
unfolding begin
begin-SameAccount o m b l h = ground arith

expire_if_needed-next :
    (x : Refresher) (now : ℕ) (m : Manager)
    → next_generation x.primitives x.codes (expire_if_needed x now m).0.runtime
      ≡ next_generation x.primitives x.codes m.runtime
unfolding expire_if_needed mark_expired
expire_if_needed-next x now m = ground arith

expire_if_needed-SameAccount :
    (x : Refresher) (now : ℕ) (m : Manager) → SameAccount (expire_if_needed x now m).0 m
unfolding expire_if_needed mark_expired
expire_if_needed-SameAccount x now m = ground arith

-- A login that began is authenticating, and moves to syncing.
begin_login-authenticating :
    (m b : Manager) → begin_target login m.state ≡ some b.state → b.state ≡ authenticating
begin_login-authenticating m b e = ground arith

transition-syncing :
    (b : Manager)
    → b.state ≡ authenticating
    → transition syncing b ≡ (record b { state = syncing }, none)
unfolding transition
transition-syncing b s = rw s refl

-- Without an error, renewed; with one, the catalogue and the account that were in force.
abbrev pub Renewed :
    Refresher
    → (Bytes → Bytes → Bytes)
    → (ℕ → ℕ)
    → (SubscriptionGeneration → SubscriptionGeneration → Type 0)
    → Manager
    → CallOutcome
    → Type 0
Renewed x hmac mclock May m r =
    ((r.1 ≡ none) × IsRenewed x hmac mclock May m r.0)
    ⊎ ((e : RefreshError) × (r.1 ≡ some e) × IsUnchanged m r.0)

-- The function that publishes a snapshot settles it: under `hmac` and `mclock`, and with a subscription
-- that `May` follow.
module _ (x : Refresher) (hmac : Bytes → Bytes → Bytes) (mclock : ℕ → ℕ)
    (May : SubscriptionGeneration → SubscriptionGeneration → Type 0)
    (settles : (s : RuntimeSnapshot) (m : Manager)
      → Settled hmac mclock May s m (x.commit_snapshot s m)) where
  abbrev Refreshes : Manager → CallOutcome → Type 0
  Refreshes = Refreshed x hmac mclock May

  refused-Refreshed : (m : Manager) (e : RefreshError) → Refreshes m (m, some e)
  refused-Refreshed m e = (λ n. absurd (ground (arith, n)), λ n. (refl, (refl, refl)))

  refresh_begun-Refreshed :
      (remote : Remote) (m : Manager) (a : Result (Manager × Lease))
      → begin refresh m ≡ a
      → Refreshes m (refresh_begun x remote m a)
  unfolding refresh_begun
  refresh_begun-Refreshed remote m (err e) h = refused-Refreshed m (RefreshError.rejected e)
  refresh_begun-Refreshed remote m (ok (b, l)) h =
      let k = begin_lem refresh m b l h in
      complete-Refreshed x hmac mclock May m b refresh l (refresh_current x remote b.runtime b)
        (inr refl) k.5 (begin_refresh-syncing m b k.1) (begin-SameAccount refresh m b l h) k.2 k.4
        (refresh_current-Renews x hmac mclock May settles remote b.runtime b)

  refresh_after-Refreshed :
      (remote : Remote) (a : Answer Bool) (m : Manager) → Refreshes m (refresh_after x remote a m)
  unfolding refresh_after
  refresh_after-Refreshed remote (fails e) m = refused-Refreshed m e
  refresh_after-Refreshed remote (done true) m = refused-Refreshed m RefreshError.authority_expired
  refresh_after-Refreshed remote (done false) m =
      refresh_begun-Refreshed remote m (begin refresh m) refl

  earlier-IsRenewed :
      (m e w : Manager)
      → next_generation x.primitives x.codes e.runtime
        ≡ next_generation x.primitives x.codes m.runtime
      → SameAccount e m
      → IsRenewed x hmac mclock May e w
      → IsRenewed x hmac mclock May m w
  earlier-IsRenewed m e w h t r = record {
    snapshot = r.snapshot;
    view = r.view;
    next = r.next ∙ h;
    state_ready = r.state_ready;
    idle = r.idle;
    may = subst (λ q. May q w.subscription) t.0 r.may;
    key = r.key ∙ t.1;
    holder = r.holder;
    account = r.account;
    publishable = r.publishable;
  }

  refresh_account-Refreshed :
      (remote : Remote) (now : ℕ) (m : Manager) → Refreshes m (refresh_account x remote now m)
  unfolding refresh_account
  refresh_account-Refreshed remote now m =
      let e = expire_if_needed x now m in
      let r = refresh_after-Refreshed remote e.1 e.0 in
      let t = expire_if_needed-SameAccount x now m in
      (
        λ n.
            earlier-IsRenewed m e.0 (refresh_after x remote e.1 e.0).0
              (expire_if_needed-next x now m) t (r.0 n),
        λ n.
            let q = r.1 n in (q.0 ∙ expire_if_needed-catalogue x now m, (q.1.0 ∙ t.0, q.1.1 ∙ t.1)),
      )

  login_sessions-Refreshed :
      (remote : Remote) (display : Bytes) (a : Answer Sessions) (m b : Manager) (l : Lease)
      → b.runtime ≡ m.runtime
      → b.state ≡ authenticating
      → SameAccount b m
      → b.active ≡ some login
      → l ≡ record { number = b.lease; operation = login; fired = false }
      → Refreshes m (complete x l (login_sessions x remote display a b))
  unfolding login_sessions login_syncing
  login_sessions-Refreshed remote display (fails e) m b l v s t busy h =
      failed-IsUnchanged x hmac mclock May m b l (b, some e) e v t refl
  login_sessions-Refreshed remote display (done ss) m b l v s t busy h =
      let c = record b { state = syncing } in
      rw (transition-syncing b s) (
        complete-Refreshed x hmac mclock May m c login l
          (commit_fetched x display (remote.fetch ss) c) (inl refl) v refl t busy h
          (commit_fetched-Renews x hmac mclock May settles display (remote.fetch ss) c))

  login_begun-Refreshed :
      (remote : Remote) (display : Bytes) (m : Manager) (a : Result (Manager × Lease))
      → begin login m ≡ a
      → Refreshes m (login_begun x remote display m a)
  unfolding login_begun
  login_begun-Refreshed remote display m (err e) h = refused-Refreshed m (RefreshError.rejected e)
  login_begun-Refreshed remote display m (ok (b, l)) h =
      let k = begin_lem login m b l h in
      login_sessions-Refreshed remote display remote.log_in m b l k.5
        (begin_login-authenticating m b k.1) (begin-SameAccount login m b l h) k.2 k.4

  Refreshed→Renewed :
      (m : Manager) (r : CallOutcome) → Refreshes m r → Renewed x hmac mclock May m r
  Refreshed→Renewed m r h = elim (Option-cases r.1) [
    | inl n ↦ inl (n, h.0 n)
    | inr (e, n) ↦ inr (e, n, h.1 (λ z. ground (arith, n, z)))
  ]

  -- A refresh and a login over a function that settles what it publishes.
  pub settled-Renewed :
      (remote : Remote) (now : ℕ) (display : Bytes) (m : Manager)
      → Renewed x hmac mclock May m (refresh_account x remote now m)
        × Renewed x hmac mclock May m (login_account x remote display m)
  unfolding login_account
  settled-Renewed remote now display m = (
    Refreshed→Renewed m (refresh_account x remote now m) (refresh_account-Refreshed remote now m),
    Refreshed→Renewed m (login_account x remote display m)
        (login_begun-Refreshed remote display m (begin login m) refl),
  )
