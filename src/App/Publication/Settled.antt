-- ===== src/App/Publication/Settled.antt =====
-- The publication of a control snapshot settles it, on every branch: `Commit` passed for the subscription
-- that was planned, or the manager is as it was.
use kfadapter.Base.{
  ◌≡◌, refl, ap, ◌∙◌, subst, ◌||◌, not, Option, none, some, arith, Option-cases, if_both, inl, inr,
}
use kfadapter.State.Types.{RuntimeSnapshot, Result, ok, err}
use kfadapter.State.Sessions.{sessions_valid, user_id}
use kfadapter.State.Binding.{SubscriptionGeneration}
use kfadapter.State.Manager.{Manager}
use kfadapter.State.Manager.Publication.{commit}
use kfadapter.State.Manager.Publish.{IsPublishable, commit-ok, commit-err}
use kfadapter.State.Manager.Setup.{Rollback, install_subscription_generation, rollback}
use kfadapter.State.Manager.Installation.{
  Follows, install_subscription_generation-ok, rollback-install,
}
use kfadapter.Selector.Identity as Identity
use kfadapter.Kuaifan.Refresh.{RefreshError}
use kfadapter.Kuaifan.Refresh.Publication.{CallOutcome}
use kfadapter.Kuaifan.Refresh.Publication.Published.{Settled, after_commit, pair_eq}
use kfadapter.App.Coordinator.{Installed, install_generation}
use kfadapter.App.Coordinator.Installation.{install_generation-next}
use kfadapter.App.Publication.{
  Runtime, Commitment, prepare_runtime_commit, abort, commit_rebuilt, commit_installed,
  commit_planned, commit_prepared, commit_control_snapshot, publisher,
}

abbrev seen : Commitment → CallOutcome
seen c = (c.manager, c.failure)

-- A manager with the planned subscription, over `m`, and the rollback that leads back.
record IsInstalled (m n : Manager) (g : SubscriptionGeneration) (back : Rollback) : Type 0 where
  may : Follows m.subscription g
  shape : n ≡ record m { subscription = g }
  undone : (rollback back n).1 ≡ m

abbrev Settles : Runtime → RuntimeSnapshot → Manager → CallOutcome → Type 0
Settles w = Settled w.primitives.hmac w.mclock Follows

abort-Settles :
    (w : Runtime) (s : RuntimeSnapshot) (m n : Manager) (g : SubscriptionGeneration)
    (back : Rollback) (i : Installed) (e : RefreshError)
    → IsInstalled m n g back
    → Settles w s m (seen (abort w back i.undo n i.after e))
unfolding abort
abort-Settles w s m n g back i e k = inr (e, pair_eq k.undone refl)

commit_rebuilt-Settles :
    (w : Runtime) (s : RuntimeSnapshot) (m n : Manager) (g : SubscriptionGeneration)
    (back : Rollback) (i : Installed)
    → IsInstalled m n g back
    → i.next ≡ record s { nodes = i.next.nodes; selectors = i.next.selectors }
    → Settles w s m (seen (commit_rebuilt w back i n))
unfolding commit_rebuilt
commit_rebuilt-Settles w s m n g back i k shape =
    let hmac = w.primitives.hmac in
    let plan : Manager = record m { subscription = g } in
    elim (Option-cases (commit hmac w.mclock i.next n).1) [
      | inl h ↦
          let c = commit-ok hmac w.mclock i.next n h in
          inl (record {
            succeeded_without = rw (commit_rebuilt, h) refl;
            nodes = i.next.nodes;
            selectors = i.next.selectors;
            subscription = g;
            may = k.may;
            publishable =
                subst (λ z. IsPublishable hmac w.mclock z plan) shape
                  (subst (λ q. IsPublishable hmac w.mclock i.next q) k.shape c.0);
            manager =
                rw (commit_rebuilt, h)
                  (c.1 ∙ ap (after_commit i.next) k.shape ∙ ap (λ z. after_commit z plan) shape);
          })
      | inr (e, h) ↦
          let same : (commit hmac w.mclock i.next n).0 ≡ n =
            commit-err hmac w.mclock i.next n (λ z. ground (arith, h, z)) in
          rw (commit_rebuilt, h, same) (abort-Settles w s m n g back i (RefreshError.rejected e) k)
    ]

commit_installed-Settles :
    (w : Runtime) (s : RuntimeSnapshot) (m n : Manager) (g : SubscriptionGeneration)
    (back : Rollback) (a : Identity.Result Installed)
    → IsInstalled m n g back
    → install_generation w.selector_primitives g s w.coordinator_now w.coordinator ≡ a
    → Settles w s m (seen (commit_installed w g back n a))
unfolding commit_installed
commit_installed-Settles w s m n g back (Identity.err e) k h =
    inr (RefreshError.not_committed, pair_eq k.undone refl)
commit_installed-Settles w s m n g back (Identity.ok i) k h =
    if_both (λ c. Settles w s m (seen c)) (w.persists g i.next)
      (commit_rebuilt-Settles w s m n g back i k
        (install_generation-next w.selector_primitives g s w.coordinator_now w.coordinator i h))
      (abort-Settles w s m n g back i RefreshError.not_committed k)

commit_planned-Settles :
    (w : Runtime) (s : RuntimeSnapshot) (m : Manager) (g : SubscriptionGeneration)
    (a : Result (Manager × Rollback))
    → install_subscription_generation w.primitives.hmac g (user_id s.sessions) m ≡ a
    → Settles w s m (seen (commit_planned w s g m a))
unfolding commit_planned
commit_planned-Settles w s m g (err e) h = inr (RefreshError.rejected e, refl)
commit_planned-Settles w s m g (ok (n, back)) h =
    let hmac = w.primitives.hmac in
    let user = user_id s.sessions in
    let k = install_subscription_generation-ok hmac g user m n back h in
    let u = rollback-install hmac g user m n back h in
    commit_installed-Settles w s m n g back
      (install_generation w.selector_primitives g s w.coordinator_now w.coordinator)
      (record { may = k.2; shape = k.3; undone = u.0 }) refl

commit_prepared-Settles :
    (w : Runtime) (s : RuntimeSnapshot) (m : Manager) (g : Option SubscriptionGeneration)
    → Settles w s m (seen (commit_prepared w s m g))
unfolding commit_prepared
commit_prepared-Settles w s m none = inr (RefreshError.not_committed, refl)
commit_prepared-Settles w s m (some g) =
    commit_planned-Settles w s m g
      (install_subscription_generation w.primitives.hmac g (user_id s.sessions) m) refl

pub publisher-Settled :
    (w : Runtime) (s : RuntimeSnapshot) (m : Manager)
    → Settled w.primitives.hmac w.mclock Follows s m (publisher w s m)
unfolding commit_control_snapshot
publisher-Settled w s m =
    if_both (λ c. Settles w s m (seen c)) (not (sessions_valid s.sessions) || not w.alive)
      (inr (RefreshError.not_committed, refl))
      (commit_prepared-Settles w s m (prepare_runtime_commit w (user_id s.sessions)))
