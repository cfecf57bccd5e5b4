-- ===== src/State/Manager/Views.antt =====
-- How each method changes the published view.
use kfadapter.Base.{
  ℕ, ◌≤◌, ◌≡◌, refl, true, false, List, [], ◌∷◌, Option, none, some, arith, ◌⊎◌, inl, inr,
}
use kfadapter.Base.Bytes.{Bytes}
use kfadapter.State.Types.{ServiceState, Operation, Outcome, RuntimeSnapshot}
use kfadapter.State.Sessions.{sessions_valid-wiped}
use kfadapter.State.Binding.{SubscriptionGeneration}
use kfadapter.State.Manager.{
  Manager, configure_binding_key, begin, sign_out, mark_expired, finish, transition, sign_out_view,
  expire_view,
}
use kfadapter.State.Manager.Publication.{commit, stale}
use kfadapter.State.Manager.Setup.{Rollback, install_subscription_generation, rollback}
use kfadapter.State.Manager.Trace.{
  Call, configures, begins, finishes, moves, commits, signs_out, expires, installs, rolls_back,
  step, run, is_commit, after, commit_free, generation_of, HasNoSession,
}

-- A call keeps the view, wipes it by signing out or by expiry, or publishes a newer snapshot.
pub data ViewStep (v w : Option RuntimeSnapshot) : Type 0 where
  kept : w ≡ v → ViewStep v w
  closed : w ≡ sign_out_view v → ViewStep v w
  ended : (now : ℕ) → w ≡ expire_view now v → ViewStep v w
  renewed : (s : RuntimeSnapshot) → w ≡ some s → stale v s.generation ≡ false → ViewStep v w

finish_view :
    (clock : ℕ → ℕ) (number : ℕ) (operation : Operation) (outcome : Outcome) (m : Manager)
    → let w = (finish clock number operation outcome m).runtime in
      (w ≡ m.runtime) ⊎ ((w ≡ sign_out_view m.runtime) ⊎ (w ≡ expire_view (clock 1) m.runtime))
unfolding finish
finish_view clock number operation outcome m = ground arith

commit_view :
    (hmac : Bytes → Bytes → Bytes) (clock : ℕ → ℕ) (s : RuntimeSnapshot) (m : Manager)
    → let w = (commit hmac clock s m).0.runtime in
      (w ≡ m.runtime) ⊎ ((w ≡ some s) × (stale m.runtime s.generation ≡ false))
unfolding commit
commit_view hmac clock s m = ground arith

mark_expired_view :
    (now : ℕ) (m : Manager)
    → let w = (mark_expired now m).0.runtime in (w ≡ m.runtime) ⊎ (w ≡ expire_view now m.runtime)
unfolding mark_expired
mark_expired_view now m = ground arith

quiet :
    (hmac : Bytes → Bytes → Bytes) (m : Manager)
    → ((key : Bytes) → (configure_binding_key key m).0.runtime ≡ m.runtime)
      × ((operation : Operation) → (after m (begin operation m)).runtime ≡ m.runtime)
      × ((next : ServiceState) → (transition next m).0.runtime ≡ m.runtime)
      × ((candidate : SubscriptionGeneration) (user : Bytes)
          → (after m (install_subscription_generation hmac candidate user m)).runtime ≡ m.runtime)
      × ((r : Rollback) → (rollback r m).1.runtime ≡ m.runtime)
unfolding configure_binding_key begin transition install_subscription_generation rollback
quiet hmac m = (
  λ key. ground arith,
  λ operation. ground arith,
  λ next. ground arith,
  λ candidate user. ground arith,
  λ r. ground arith,
)

pub step-ViewStep :
    (hmac : Bytes → Bytes → Bytes) (m : Manager) (c : Call)
    → ViewStep m.runtime (step hmac m c).runtime
unfolding step
step-ViewStep hmac m (configures key) = kept ((quiet hmac m).0 key)
step-ViewStep hmac m (begins operation) = kept ((quiet hmac m).1 operation)
step-ViewStep hmac m (finishes clock number operation outcome) =
    elim (finish_view clock number operation outcome m) [
      | inl e ↦ kept e
      | inr (inl e) ↦ closed e
      | inr (inr e) ↦ ended (clock 1) e
    ]
step-ViewStep hmac m (moves next) = kept ((quiet hmac m).2 next)
step-ViewStep hmac m (commits clock s) = elim (commit_view hmac clock s m) [
  | inl e ↦ kept e
  | inr (e, newer) ↦ renewed s e newer
]
step-ViewStep hmac m signs_out = closed (unfold sign_out in refl)
step-ViewStep hmac m (expires now) = elim (mark_expired_view now m) [
  | inl e ↦ kept e
  | inr e ↦ ended now e
]
step-ViewStep hmac m (installs candidate user) = kept ((quiet hmac m).3 candidate user)
step-ViewStep hmac m (rolls_back r) = kept ((quiet hmac m).4 r)

-- The same without a commit: nothing is published.
pub step-quiet :
    (hmac : Bytes → Bytes → Bytes) (m : Manager) (c : Call)
    → is_commit c ≡ false
    → let w = (step hmac m c).runtime in
      (w ≡ m.runtime)
      ⊎ ((w ≡ sign_out_view m.runtime) ⊎ ((now : ℕ) × (w ≡ expire_view now m.runtime)))
unfolding step
step-quiet hmac m (configures key) h = inl ((quiet hmac m).0 key)
step-quiet hmac m (begins operation) h = inl ((quiet hmac m).1 operation)
step-quiet hmac m (finishes clock number operation outcome) h =
    elim (finish_view clock number operation outcome m) [
      | inl e ↦ inl e
      | inr (inl e) ↦ inr (inl e)
      | inr (inr e) ↦ inr (inr (clock 1, e))
    ]
step-quiet hmac m (moves next) h = inl ((quiet hmac m).2 next)
step-quiet hmac m (commits clock s) h = cc
step-quiet hmac m signs_out h = inr (inl (unfold sign_out in refl))
step-quiet hmac m (expires now) h = elim (mark_expired_view now m) [
  | inl e ↦ inl e
  | inr e ↦ inr (inr (now, e))
]
step-quiet hmac m (installs candidate user) h = inl ((quiet hmac m).3 candidate user)
step-quiet hmac m (rolls_back r) h = inl ((quiet hmac m).4 r)

-- Through any history of calls the generation of the published view never falls.
pub run-generation_le :
    (hmac : Bytes → Bytes → Bytes) (m : Manager) (cs : List Call)
    → generation_of m.runtime ≤ generation_of (run hmac m cs).runtime
unfolding run
run-generation_le hmac m [] = omega arith
run-generation_le hmac m (c ∷ cs) =
    omega (arith, grown (step-ViewStep hmac m c), run-generation_le hmac (step hmac m c) cs)
  where
    grown : {v w : Option RuntimeSnapshot} → ViewStep v w → generation_of v ≤ generation_of w
    grown {v} {w} (kept e) = rw e (omega arith)
    grown {v} {w} (closed e) = ground arith
    grown {v} {w} (ended now e) = ground arith
    grown {v} {w} (renewed s e newer) = ground arith

step-HasNoSession :
    (hmac : Bytes → Bytes → Bytes) (m : Manager) (c : Call)
    → is_commit c ≡ false
    → HasNoSession m.runtime
    → HasNoSession (step hmac m c).runtime
step-HasNoSession hmac m c h s = elim (step-quiet hmac m c h) [
  | inl e ↦ rw e s
  | inr (inl e) ↦ rw e (signed m.runtime)
  | inr (inr (now, e)) ↦ rw e (lapsed m.runtime now)
]
  where
    signed : (v : Option RuntimeSnapshot) → HasNoSession (sign_out_view v)
    signed none = tt
    signed (some s) = sessions_valid-wiped

    lapsed : (v : Option RuntimeSnapshot) (now : ℕ) → HasNoSession (expire_view now v)
    lapsed none now = tt
    lapsed (some s) now = sessions_valid-wiped

pub run-HasNoSession :
    (hmac : Bytes → Bytes → Bytes) (m : Manager) (cs : List Call)
    → commit_free cs ≡ true
    → HasNoSession m.runtime
    → HasNoSession (run hmac m cs).runtime
unfolding run
run-HasNoSession hmac m [] h s = s
run-HasNoSession hmac m (c ∷ cs) h s =
    run-HasNoSession hmac (step hmac m c) cs (ground arith)
      (step-HasNoSession hmac m c (ground arith) s)
