-- ===== src/Kuaifan/Refresh/Publication/Catalogue.antt =====
-- A lease given back over a publication, or over an error that leaves the catalogue in force.
use kfadapter.State.Types.{login}
use kfadapter.Base.{
  ℕ, ◌≡◌, ◌≢◌, ◌⊎◌, refl, sym, ap, ◌∙◌, subst, false, ◌||◌, not, List, Option, none, some, arith,
  if_both, inl, inr,
}
use kfadapter.State.Types.{
  ServiceState, ready, degraded, syncing, Operation, refresh, Outcome, succeeded, Node, Selectors,
  RuntimeSnapshot,
}
use kfadapter.State.Sessions.{sessions_valid, session_eq, no_session}
use kfadapter.Base.Bytes.{Bytes}
use kfadapter.State.Binding.{SubscriptionGeneration}
use kfadapter.State.Manager.{Manager, Lease, release, finish, mark_expired}
use kfadapter.State.Manager.Publish.{IsPublishable}
use kfadapter.Kuaifan.Refresh.{RefreshError}
use kfadapter.Kuaifan.Refresh.Building.{next_generation}
use kfadapter.Kuaifan.Refresh.Publication.{
  Refresher, Remote, CallOutcome, expire_if_needed, refresh_current, outcome_of, complete,
}
use kfadapter.Kuaifan.Refresh.Publication.Published.{
  after_commit, Settled, Renews, commit_rotated-Renews,
}

-- What a catalogue is: the generation, its nodes and its selectors.
abbrev pub catalogue : Option RuntimeSnapshot → Option (ℕ × List Node × Selectors)
catalogue none = none
catalogue (some s) = some (s.generation, s.nodes, s.selectors)

-- Two managers with one subscription and one key.
abbrev pub SameAccount : Manager → Manager → Type 0
SameAccount a b =
    (a.subscription ≡ b.subscription) × (a.account_binding_key ≡ b.account_binding_key)

release-SameAccount :
    (clock : ℕ → ℕ) (o : Outcome) (l : Lease) (m : Manager) → SameAccount (release clock o l m).1 m
unfolding release finish
release-SameAccount clock o l m = (ground arith, ground arith)

pub release-catalogue :
    (clock : ℕ → ℕ) (o : Outcome) (l : Lease) (m : Manager)
    → catalogue (release clock o l m).1.runtime ≡ catalogue m.runtime
unfolding release
release-catalogue clock o l m = ground arith

pub expire_if_needed-catalogue :
    (x : Refresher) (now : ℕ) (m : Manager)
    → catalogue (expire_if_needed x now m).0.runtime ≡ catalogue m.runtime
unfolding expire_if_needed mark_expired
expire_if_needed-catalogue x now m = ground arith

-- The two operations of the refresher.
abbrev pub IsRenewal : Operation → Type 0
IsRenewal o = (o ≡ login) ⊎ (o ≡ refresh)

-- A lease that is held over a ready manager ends in a success by freeing it.
release-succeeded :
    (clock : ℕ → ℕ) (m : Manager) (l : Lease) (o : Operation)
    → IsRenewal o
    → l.fired ≡ false
    → m.lease ≡ l.number
    → m.active ≡ some o
    → l.operation ≡ o
    → m.state ≡ ready
    → (release clock succeeded l m).1 ≡ record m { active = none }
unfolding release finish
release-succeeded clock m l o (inl k) f e a h s = rw (f, e, a, h, k, s) (ground arith)
release-succeeded clock m l o (inr k) f e a h s = rw (f, e, a, h, k, s) (ground arith)

-- What a login or a refresh without an error has done: a snapshot of the next generation is published after
-- every check of `Commit` by the holder of the lease, for the subscription that is in force now and that
-- may follow the one before, and the manager is ready and free.
pub record IsRenewed (x : Refresher) (hmac : Bytes → Bytes → Bytes) (mclock : ℕ → ℕ)
    (May : SubscriptionGeneration → SubscriptionGeneration → Type 0) (m m' : Manager) : Type 0 where
  pub snapshot : RuntimeSnapshot
  pub view : m'.runtime ≡ some snapshot
  pub next : snapshot.generation ≡ next_generation x.primitives x.codes m.runtime
  pub state_ready : m'.state ≡ ready
  pub idle : m'.active ≡ none
  pub may : May m.subscription m'.subscription
  pub key : m'.account_binding_key ≡ m.account_binding_key
  pub holder : Manager
  pub account : SameAccount holder m'
  pub publishable : IsPublishable hmac mclock snapshot holder

-- What both leave with an error: the catalogue and the account that were in force.
abbrev pub IsUnchanged : Manager → Manager → Type 0
IsUnchanged m m' = (catalogue m'.runtime ≡ catalogue m.runtime) × SameAccount m' m

module _ (x : Refresher) (hmac : Bytes → Bytes → Bytes) (mclock : ℕ → ℕ)
    (May : SubscriptionGeneration → SubscriptionGeneration → Type 0) where
  abbrev pub Refreshed : Manager → CallOutcome → Type 0
  Refreshed m r =
      (r.1 ≡ none → IsRenewed x hmac mclock May m r.0) × (r.1 ≢ none → IsUnchanged m r.0)

  -- The lease is given back over a publication.
  after_commit-IsRenewed :
      (m b : Manager) (n : RuntimeSnapshot) (g : SubscriptionGeneration)
      → b.runtime ≡ m.runtime
      → b.state ≡ syncing
      → SameAccount b m
      → n.generation ≡ next_generation x.primitives x.codes b.runtime
      → May b.subscription g
      → IsPublishable hmac mclock n (record b { subscription = g })
      → IsRenewed x hmac mclock May m
          (record (after_commit n (record b { subscription = g })) { active = none })
  after_commit-IsRenewed m b n g v s t next may p = record {
    snapshot = n;
    view = refl;
    next = next ∙ ap (next_generation x.primitives x.codes) v;
    state_ready = ap (λ (q : ServiceState). elim q [ degraded ↦ degraded | _ ↦ ready ]) s;
    idle = refl;
    may = subst (λ q. May q g) t.0 may;
    key = t.1;
    holder = record b { subscription = g };
    account = (refl, refl);
    publishable = p;
  }

  -- The manager after a publication was given back.
  complete-published :
      (b : Manager) (o : Operation) (l : Lease) (r : CallOutcome) (n : RuntimeSnapshot)
      → IsRenewal o
      → b.state ≡ syncing
      → b.active ≡ some o
      → l ≡ record { number = b.lease; operation = o; fired = false }
      → r.1 ≡ none
      → r.0 ≡ after_commit n b
      → (complete x l r).0 ≡ record (after_commit n b) { active = none }
  unfolding complete
  complete-published b o l r n k s a e none_left h =
      let lease : r.0.lease ≡ l.number =
        ap (λ (q : Manager). q.lease) h ∙ sym (ap (λ (q : Lease). q.number) e) in
      let busy : r.0.active ≡ some o = ap (λ (q : Manager). q.active) h ∙ a in
      let is_ready : r.0.state ≡ ready =
        ap (λ (q : Manager). q.state) h
        ∙ ap (λ (q : ServiceState). elim q [ degraded ↦ degraded | _ ↦ ready ]) s in
      ap (λ z. (release x.rclock (outcome_of x z) l r.0).1) none_left
      ∙ release-succeeded x.rclock r.0 l o k (ap (λ (q : Lease). q.fired) e) lease busy
          (ap (λ (q : Lease). q.operation) e) is_ready
      ∙ ap (λ (q : Manager). record q { active = none }) h

  pub failed-IsUnchanged :
      (m b : Manager) (l : Lease) (r : CallOutcome) (e : RefreshError)
      → b.runtime ≡ m.runtime
      → SameAccount b m
      → r ≡ (b, some e)
      → Refreshed m (complete x l r)
  unfolding complete
  failed-IsUnchanged m b l r e v t h = (
    λ n. absurd (ground (arith, n, ap (λ (q : CallOutcome). q.1) h)),
    λ n.
        let k = release-SameAccount x.rclock (outcome_of x r.1) l r.0 in
        (
          release-catalogue x.rclock (outcome_of x r.1) l r.0
              ∙ ap (λ (q : CallOutcome). catalogue q.0.runtime) h
              ∙ ap catalogue v,
          (
            k.0 ∙ ap (λ (q : CallOutcome). q.0.subscription) h ∙ t.0,
            k.1 ∙ ap (λ (q : CallOutcome). q.0.account_binding_key) h ∙ t.1,
          ),
        ),
  )

  -- The lease is given back over a publication, or over an error.
  pub complete-Refreshed :
      (m b : Manager) (o : Operation) (l : Lease) (r : CallOutcome)
      → IsRenewal o
      → b.runtime ≡ m.runtime
      → b.state ≡ syncing
      → SameAccount b m
      → b.active ≡ some o
      → l ≡ record { number = b.lease; operation = o; fired = false }
      → Renews x hmac mclock May b r
      → Refreshed m (complete x l r)
  unfolding complete
  complete-Refreshed m b o l r k v s t a e (inr (f, h)) = failed-IsUnchanged m b l r f v t h
  complete-Refreshed m b o l r k v s t a e (inl (w, next, p)) =
      let n : RuntimeSnapshot = record w { nodes = p.nodes; selectors = p.selectors } in
      (
        λ z.
            subst (IsRenewed x hmac mclock May m)
              (sym (
                complete-published (record b { subscription = p.subscription }) o l r n k s a e z
                  p.manager))
              (after_commit-IsRenewed m b n p.subscription v s t next p.may p.publishable),
        λ z. absurd (z p.succeeded_without),
      )

  pub refresh_current-Renews :
      ((s : RuntimeSnapshot) (m : Manager) → Settled hmac mclock May s m (x.commit_snapshot s m))
      → (remote : Remote) (v : Option RuntimeSnapshot) (m : Manager)
      → Renews x hmac mclock May m (refresh_current x remote v m)
  unfolding refresh_current
  refresh_current-Renews settles remote none m = inr (RefreshError.no_session, refl)
  refresh_current-Renews settles remote (some s) m =
      if_both (Renews x hmac mclock May m)
        (not (sessions_valid s.sessions) || session_eq s.sessions.windows_session no_session)
        (inr (RefreshError.no_session, refl))
        (commit_rotated-Renews x hmac mclock May settles remote s.account.display
          (remote.rotate s.sessions) m)
