-- ===== src/Web/Sessions/Run.antt =====
-- Any interleaving of the calls on the store of browser sessions, and what it keeps.
use kfadapter.Base.{ℕ, ◌≡◌, refl, Bool, [], some, arith}
use kfadapter.Base.Bytes.{Bytes}
use kfadapter.Base.Dict.{lookup, delete}
use kfadapter.Web.Sessions.{BrowserSession, Store}
use kfadapter.Web.Sessions.Calls.{reserve, settle_create, valid, revoke, matches}
use kfadapter.Web.Sessions.Logins.{begin_login, finish_login}
use kfadapter.Web.Sessions.Sound.{IsSound, Creating, attempts-IsSound}
use kfadapter.Web.Sessions.Creation.{with_reserved, reserve-IsSound, settle_create-IsSound}
use kfadapter.Web.Sessions.{Encoding, restore, new_session_store}
use kfadapter.Web.Access.{begin_access, finish_access}
use kfadapter.Web.Sessions.Methods.{
  valid-IsSound, matches-IsSound, revoke-IsSound, begin_login-IsSound, finish_found-IsSound,
  restore-IsSound,
}

-- The store with the sessions that calls of `create` have reserved and not yet settled.
pub record System : Type 0 where
  pub store : Store
  pub creating : Creating

abbrev pub at : Store → Creating → System
at s c = record { store = s; creating = c }

-- What one call does while it holds the lock. Sessions are restored before any is created.
pub data Step : System → System → Type 0 where
  restores :
      (b : Encoding) (now : ℕ) (token csrf : Bytes) (expires_at : ℕ) {s : Store}
      → Step (at s []) (at (restore b now token csrf expires_at s).1 [])
  reserves :
      (clock : ℕ → ℕ) (token csrf : Bytes) {s : Store} {c : Creating}
      → Step
          (at s c)
          (at (reserve clock token csrf s).2 (with_reserved token (reserve clock token csrf s).0 c))
  settles :
      (clock : ℕ → ℕ) (token : Bytes) (b : BrowserSession) (saved : Bool) {s : Store} {c : Creating}
      → lookup token c ≡ some b
      → Step (at s c) (at (settle_create clock token b saved s).1 (delete token c))
  validates :
      (clock : ℕ → ℕ) (token : Bytes) {s : Store} {c : Creating}
      → Step (at s c) (at (valid clock token s).2 c)
  compares :
      (clock : ℕ → ℕ) (token : Bytes) (x : BrowserSession) {s : Store} {c : Creating}
      → Step (at s c) (at (matches clock token x s).2 c)
  revokes :
      (token : Bytes) (deleted : Bool) {s : Store} {c : Creating}
      → Step (at s c) (at (revoke token deleted s).1 c)
  begins_login :
      (clock : ℕ → ℕ) (token : Bytes) {s : Store} {c : Creating}
      → Step (at s c) (at (begin_login clock token s).2 c)
  finishes_login :
      (clock : ℕ → ℕ) (token : Bytes) (successful counted : Bool) {s : Store} {c : Creating}
      → Step (at s c) (at (finish_login clock token successful counted s).1 c)
  begins_access :
      (clock : ℕ → ℕ) (client : Bytes) {s : Store} {c : Creating}
      → Step
          (at s c)
          (at (record s { access_attempts = (begin_access clock client s.access_attempts).1 }) c)
  finishes_access :
      (clock : ℕ → ℕ) (client : Bytes) (successful counted : Bool) {s : Store} {c : Creating}
      → Step (at s c) (
          at
            (record s {
              access_attempts = finish_access clock client successful counted s.access_attempts;
            })
            c)

pub data Steps : System → System → Type 0 where
  none_more : {x : System} → Steps x x
  more : {x y z : System} → Step x y → Steps y z → Steps x z

step-IsSound :
    {x y : System} → Step x y → IsSound x.store x.creating [] → IsSound y.store y.creating []
unfolding finish_login
step-IsSound (restores b now token csrf expires_at {s}) i =
    restore-IsSound b now token csrf expires_at s i
step-IsSound (reserves clock token csrf {s} {c}) i = reserve-IsSound clock token csrf s c i
step-IsSound (settles clock token b saved {s} {c} e) i =
    settle_create-IsSound clock token b saved s c e i
step-IsSound (validates clock token {s} {c}) i = valid-IsSound clock token s c i
step-IsSound (compares clock token x {s} {c}) i = matches-IsSound clock token x s c i
step-IsSound (revokes token deleted {s} {c}) i = revoke-IsSound token deleted s c i
step-IsSound (begins_login clock token {s} {c}) i = begin_login-IsSound clock token s c i
step-IsSound (finishes_login clock token successful counted {s} {c}) i =
    finish_found-IsSound clock token successful counted (lookup token s.sessions) s c refl i
step-IsSound (begins_access clock client {s} {c}) i =
    attempts-IsSound s c [] s.login_attempts (begin_access clock client s.access_attempts).1 i
      i.one_attempt i.active
step-IsSound (finishes_access clock client successful counted {s} {c}) i =
    attempts-IsSound s c [] s.login_attempts
      (finish_access clock client successful counted s.access_attempts) i i.one_attempt i.active

pub Steps-IsSound :
    {x y : System} → Steps x y → IsSound x.store x.creating [] → IsSound y.store y.creating []
Steps-IsSound none_more i = i
Steps-IsSound (more st rest) i = Steps-IsSound rest (step-IsSound st i)

new_session_store-IsSound : (ttl max : ℕ) → IsSound (new_session_store ttl max) [] []
unfolding new_session_store
new_session_store-IsSound ttl max = record {
  one_session = refl;
  one_attempt = refl;
  one_creation = refl;
  active = λ k h. h;
  reserved_tokens = refl;
  room = omega arith;
  one_place = λ d. omega arith;
}

-- From a new store, any interleaving of the calls leaves it sound: one session for a token, login
-- attempts of sessions alone, a pending token for each session that is being created, sessions and
-- those together within the limit, and every channel in one place, so none is closed twice.
pub reachable-IsSound :
    (ttl max : ℕ) (y : System)
    → Steps (at (new_session_store ttl max) []) y
    → IsSound y.store y.creating []
reachable-IsSound ttl max y st = Steps-IsSound st (new_session_store-IsSound ttl max)
