-- ===== src/State/Manager/Diagram.antt =====
-- The lifecycle diagram that every call keeps to.
use kfadapter.Base.{◌≡◌, Bool, true, false, arith, ◌⊎◌}
use kfadapter.Base.Bytes.{Bytes}
use kfadapter.State.Types.{signed_out, degraded, expired, error}
use kfadapter.State.Sessions.{sessions_valid-wiped}
use kfadapter.State.Manager.{
  Manager, configure_binding_key, begin, sign_out, mark_expired, finish, transition,
  valid_transition,
}
use kfadapter.State.Manager.Publication.{commit}
use kfadapter.State.Manager.Setup.{install_subscription_generation, rollback}
use kfadapter.State.Manager.Trace.{
  Call, configures, begins, finishes, moves, commits, signs_out, expires, installs, rolls_back,
  step, HasNoSession,
}

abbrev is_finish : Call → Bool
is_finish (finishes clock number operation outcome) = true
is_finish _ = false

-- How a call may change the lifecycle state.
abbrev pub Moves : Call → Manager → Manager → Type 0
Moves c m m' =
    (m'.state ≡ m.state)
    ⊎ ((valid_transition m.state m'.state ≡ true)
        ⊎ ((((m'.state ≡ signed_out) ⊎ (m'.state ≡ expired)) × HasNoSession m'.runtime)
            ⊎ ((is_finish c ≡ true) × ((m'.state ≡ degraded) ⊎ (m'.state ≡ error)))))

-- Every call leaves the state, or moves it along the transition table, or invalidates the view: it ends
-- signed out or expired with no usable session. Only the end of a failed refresh may also degrade the
-- manager or put it in error from any state.
pub step-state : (hmac : Bytes → Bytes → Bytes) (m : Manager) (c : Call) → Moves c m (step hmac m c)
unfolding step
step-state hmac m (configures key) = unfold configure_binding_key in ground arith
step-state hmac m (begins operation) = unfold begin in ground arith
step-state hmac m (finishes clock number operation outcome) =
    unfold finish in ground (arith, sessions_valid-wiped)
step-state hmac m (moves next) = unfold transition in ground arith
step-state hmac m (commits clock s) = unfold commit in ground arith
step-state hmac m signs_out = unfold sign_out in ground (arith, sessions_valid-wiped)
step-state hmac m (expires now) = unfold mark_expired in ground (arith, sessions_valid-wiped)
step-state hmac m (installs candidate user) = unfold install_subscription_generation in ground arith
step-state hmac m (rolls_back r) = unfold rollback in ground arith
