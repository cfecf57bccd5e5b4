-- ===== src/State/Manager/Trace.antt =====
-- Histories of calls on one manager, and what every call keeps: the generation never falls, and
-- without a commit no session comes back.
use kfadapter.Base.{ℕ, ◌≡◌, Bool, true, false, ◌&&◌, not, List, [], ◌∷◌, Option, none, some}
use kfadapter.Base.Bytes.{Bytes}
use kfadapter.State.Types.{ServiceState, Operation, Outcome, RuntimeSnapshot, Result, ok, err}
use kfadapter.State.Sessions.{sessions_valid}
use kfadapter.State.Binding.{SubscriptionGeneration}
use kfadapter.State.Manager.{
  Manager, configure_binding_key, begin, sign_out, mark_expired, finish, transition,
}
use kfadapter.State.Manager.Publication.{commit}
use kfadapter.State.Manager.Setup.{Rollback, install_subscription_generation, rollback}

-- One call of each method that changes the manager; a lease and a rollback may be any value.
pub data Call : Type 0 where
  configures : Bytes → Call
  begins : Operation → Call
  finishes : (ℕ → ℕ) → ℕ → Operation → Outcome → Call
  moves : ServiceState → Call
  commits : (ℕ → ℕ) → RuntimeSnapshot → Call
  signs_out : Call
  expires : ℕ → Call
  installs : SubscriptionGeneration → Bytes → Call
  rolls_back : Rollback → Call

-- A method that fails leaves the manager as it was.
abbrev pub after {ℓ} : {A : Type ℓ} → Manager → Result (Manager × A) → Manager
after m (err e) = m
after m (ok (m', a)) = m'

abbrev pub is_commit : Call → Bool
is_commit (commits clock s) = true
is_commit _ = false

abbrev pub commit_free : List Call → Bool
commit_free [] = true
commit_free (c ∷ cs) = not (is_commit c) && commit_free cs

abbrev pub generation_of : Option RuntimeSnapshot → ℕ
generation_of none = 0
generation_of (some s) = s.generation

-- The published view carries no usable session.
abbrev pub HasNoSession : Option RuntimeSnapshot → Type 0
HasNoSession none = Unit {0}
HasNoSession (some s) = sessions_valid s.sessions ≡ false

module _ (hmac : Bytes → Bytes → Bytes) where
  unfoldable pub step : Manager → Call → Manager
  step m (configures key) = (configure_binding_key key m).0
  step m (begins operation) = after m (begin operation m)
  step m (finishes clock number operation outcome) = finish clock number operation outcome m
  step m (moves next) = (transition next m).0
  step m (commits clock s) = (commit hmac clock s m).0
  step m signs_out = sign_out m
  step m (expires now) = (mark_expired now m).0
  step m (installs candidate user) = after m (install_subscription_generation hmac candidate user m)
  step m (rolls_back r) = (rollback r m).1

  unfoldable pub run : Manager → List Call → Manager
  run m [] = m
  run m (c ∷ cs) = run (step m c) cs
