-- ===== src/Kuaifan/Refresh/Publication/Published.antt =====
-- The last steps of a login or a refresh publish the next generation, or leave the manager as it was.
use kfadapter.Base.{
  ℕ, ◌≡◌, ◌⊎◌, refl, sym, ap, ◌∙◌, ◌||◌, not, List, Option, none, some, ◌==◌, arith, Bool-cases,
  Option-cases, inl, inr,
}
use kfadapter.Base.Bytes.{Bytes}
use kfadapter.State.Types.{
  ready, degraded, Node, RuntimeSnapshot, Selectors, ios, windows, AccountSummary,
}
use kfadapter.State.Binding.{SubscriptionGeneration}
use kfadapter.State.Manager.{Manager}
use kfadapter.State.Manager.Publication.{commit}
use kfadapter.State.Manager.Publish.{IsPublishable, commit-ok, commit-err}
use kfadapter.Kuaifan.Refresh.{
  CompleteProfile, RefreshError, Answer, done, fails, aggregate_account_display,
}
use kfadapter.Kuaifan.Refresh.Building.{
  make_snapshot, next_generation, built_snapshot, merged, build_selectors, previous_selectors,
  nodes_from_lines,
}
use kfadapter.Kuaifan.Refresh.Publication.{
  Refresher, Sessions, Profiles, Remote, CallOutcome, commit_error, manager_commit,
  publish_snapshot, commit_profiles, commit_account, commit_fetched, commit_rotated,
}

-- The manager after a publication of `s`.
abbrev pub after_commit : RuntimeSnapshot → Manager → Manager
after_commit s m = record m {
  runtime = some s;
  state = elim m.state [ degraded ↦ degraded | _ ↦ ready ];
}

-- A publication of `s` over the manager `m`: every check of `Commit` passed for a snapshot that differs from
-- `s` in nodes and selectors alone, on the manager with the subscription then in force, which may follow
-- the one of `m`. `May` is what may follow what.
pub record IsPublication (hmac : Bytes → Bytes → Bytes) (mclock : ℕ → ℕ)
    (May : SubscriptionGeneration → SubscriptionGeneration → Type 0) (s : RuntimeSnapshot)
    (m : Manager) (r : CallOutcome) : Type 0 where
  pub succeeded_without : r.1 ≡ none
  pub nodes : List Node
  pub selectors : Selectors
  pub subscription : SubscriptionGeneration
  pub may : May m.subscription subscription
  pub publishable :
      IsPublishable hmac mclock
        (record s { nodes = nodes; selectors = selectors })
        (record m { subscription = subscription })
  pub manager :
      r.0
      ≡ after_commit
          (record s { nodes = nodes; selectors = selectors })
          (record m { subscription = subscription })

-- Published, or an error and the manager as it was.
abbrev pub Settled :
    (Bytes → Bytes → Bytes)
    → (ℕ → ℕ)
    → (SubscriptionGeneration → SubscriptionGeneration → Type 0)
    → RuntimeSnapshot
    → Manager
    → CallOutcome
    → Type 0
Settled hmac mclock May s m r =
    IsPublication hmac mclock May s m r ⊎ ((e : RefreshError) × (r ≡ (m, some e)))

abbrev outcome : Manager → Option RefreshError → CallOutcome
outcome m e = (m, e)

pub pair_eq :
    {m w : Manager} {e f : Option RefreshError} → m ≡ w → e ≡ f → outcome m e ≡ outcome w f
pair_eq {m} {w} {e} {f} p q = ap (λ z. outcome z e) p ∙ ap (λ z. outcome w z) q

-- The manager's own `Commit` settles, with the subscription as it is.
pub manager_commit-Settled :
    (hmac : Bytes → Bytes → Bytes) (mclock : ℕ → ℕ) (s : RuntimeSnapshot) (m : Manager)
    → Settled hmac mclock (λ g h. h ≡ g) s m (manager_commit hmac mclock s m)
unfolding manager_commit
manager_commit-Settled hmac mclock s m = elim (Option-cases (commit hmac mclock s m).1) [
  | inl n ↦
      let c = commit-ok hmac mclock s m n in
      inl (record {
        succeeded_without = ap commit_error n;
        nodes = s.nodes;
        selectors = s.selectors;
        subscription = m.subscription;
        may = refl;
        publishable = c.0;
        manager = c.1;
      })
  | inr (e, n) ↦
      let same : (commit hmac mclock s m).0 ≡ m =
        commit-err hmac mclock s m (λ z. ground (arith, n, z)) in
      inr (RefreshError.rejected e, pair_eq same (ap commit_error n))
]

generation_or : ℕ → Answer RuntimeSnapshot → ℕ
generation_or d (done s) = s.generation
generation_or d (fails e) = d

built_snapshot-next :
    (x : Refresher) (current : Option RuntimeSnapshot) (account : AccountSummary)
    (first second : CompleteProfile) (nodes : Answer (List Node)) (s : RuntimeSnapshot)
    → built_snapshot x.primitives x.codes x.builder x.clock x.lifetime current account first second
        nodes
      ≡ done s
    → s.generation ≡ next_generation x.primitives x.codes current
unfolding generation_or
built_snapshot-next x current account first second (fails e) s h = absurd (ground (arith, h))
built_snapshot-next x current account first second (done nodes) s h =
    elim (Option-cases
      (build_selectors x.builder nodes (previous_selectors x.primitives x.codes current) x.clock)) [
        | inl n ↦ absurd (ground (arith, rw (built_snapshot, n) at h))
        | inr (b, n) ↦ sym (ap (generation_or 0) (rw (built_snapshot, n) at h))
      ]

make_snapshot-next :
    (x : Refresher) (current : Option RuntimeSnapshot) (account : AccountSummary)
    (first second : CompleteProfile) (s : RuntimeSnapshot)
    → make_snapshot x.primitives x.codes x.builder x.clock x.lifetime current account first second
      ≡ done s
    → s.generation ≡ next_generation x.primitives x.codes current
unfolding make_snapshot
make_snapshot-next x current account first second s e =
    elim (Bool-cases
      (first.session.user_id == 0 || not (first.session.user_id == second.session.user_id))) [
        | inl bad ↦ absurd (ground (arith, rw bad at e))
        | inr good ↦
            built_snapshot-next x current account first second
              (merged x.primitives x.codes (nodes_from_lines x.primitives x.codes first.lines ios)
                (nodes_from_lines x.primitives x.codes second.lines windows))
              s (rw good at e)
      ]

-- What a login or a refresh settles: a publication of a snapshot of the next generation.
abbrev pub Renews :
    Refresher
    → (Bytes → Bytes → Bytes)
    → (ℕ → ℕ)
    → (SubscriptionGeneration → SubscriptionGeneration → Type 0)
    → Manager
    → CallOutcome
    → Type 0
Renews x hmac mclock May m r =
    ((s : RuntimeSnapshot) × (s.generation ≡ next_generation x.primitives x.codes m.runtime)
      × IsPublication hmac mclock May s m r)
    ⊎ ((e : RefreshError) × (r ≡ (m, some e)))

module _ (x : Refresher) (hmac : Bytes → Bytes → Bytes) (mclock : ℕ → ℕ)
    (May : SubscriptionGeneration → SubscriptionGeneration → Type 0)
    (settles : (s : RuntimeSnapshot) (m : Manager)
      → Settled hmac mclock May s m (x.commit_snapshot s m)) where
  publish_snapshot-Renews :
      (m : Manager) (a : Answer RuntimeSnapshot)
      → ((s : RuntimeSnapshot)
          → a ≡ done s
          → s.generation ≡ next_generation x.primitives x.codes m.runtime)
      → Renews x hmac mclock May m (publish_snapshot x a m)
  unfolding publish_snapshot
  publish_snapshot-Renews m (fails e) h = inr (e, refl)
  publish_snapshot-Renews m (done s) h = elim (settles s m) [
    | inl p ↦ inl (s, h s refl, p)
    | inr q ↦ inr q
  ]

  commit_account-Renews :
      (ps : Profiles) (a : Answer AccountSummary) (m : Manager)
      → Renews x hmac mclock May m (commit_account x ps a m)
  unfolding commit_account commit_profiles
  commit_account-Renews ps (fails e) m = inr (e, refl)
  commit_account-Renews ps (done account) m =
      publish_snapshot-Renews m
        (make_snapshot x.primitives x.codes x.builder x.clock x.lifetime m.runtime account ps.0
          ps.1)
        (make_snapshot-next x m.runtime account ps.0 ps.1)

  pub commit_fetched-Renews :
      (display : Bytes) (a : Answer Profiles) (m : Manager)
      → Renews x hmac mclock May m (commit_fetched x display a m)
  unfolding commit_fetched
  commit_fetched-Renews display (fails e) m = inr (e, refl)
  commit_fetched-Renews display (done ps) m =
      commit_account-Renews ps (aggregate_account_display display ps.0 ps.1) m

  pub commit_rotated-Renews :
      (remote : Remote) (display : Bytes) (a : Answer Sessions) (m : Manager)
      → Renews x hmac mclock May m (commit_rotated x remote display a m)
  unfolding commit_rotated
  commit_rotated-Renews remote display (fails e) m = inr (e, refl)
  commit_rotated-Renews remote display (done ss) m =
      commit_fetched-Renews display (remote.fetch ss) m
