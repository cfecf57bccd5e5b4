-- ===== src/Web/Sessions/Closing.antt =====
-- A closed channel stays closed, whatever the calls do.
use kfadapter.Base.{
  ℕ, suc, ◌+◌, ◌≤◌, Bool, not, ◌&&◌, ◌||◌, List, [], ◌∷◌, Option, none, some, length, ltb, leb,
  ◌==◌, is_empty, arith, if_both, Option-cases, inl, inr,
}
use kfadapter.Base.Bytes.{Bytes}
use kfadapter.Base.Dict.{lookup, member}
use kfadapter.Web.Sessions.{
  BrowserSession, LoginAttempt, LoginAdmission, Store, has_session, remove_session, remove_found,
  remove_expired, expired, prune,
}
use kfadapter.Web.Sessions.Channels.{occurs}
use kfadapter.Web.Sessions.Calls.{
  Reservation, reserve, settle_create, valid, valid_found, revoke, matches, matches_found,
}
use kfadapter.Web.Sessions.Logins.{
  login_or_new, renew_login, admit_login, begin_login, failed_login, finish_reserved, finish_found,
  finish_login,
}
use kfadapter.Web.Sessions.{Encoding, valid_browser_session_secret, restore, RestoreError}
use kfadapter.Web.Sessions.Run.{
  System, Step, Steps, restores, reserves, settles, validates, compares, revokes, begins_login,
  finishes_login, begins_access, finishes_access, none_more, more,
}

-- The channel is closed.
abbrev pub IsClosed : ℕ → Store → Type 0
IsClosed d s = 1 ≤ occurs d s.closed

pub remove_session-IsClosed :
    (d : ℕ) (token : Bytes) (s : Store) → IsClosed d s → IsClosed d (remove_session token s)
unfolding remove_session remove_found
remove_session-IsClosed d token s h = elim (Option-cases (lookup token s.sessions)) [
  | inl e ↦ rw e h
  | inr (b, e) ↦ rw e (omega (arith, h))
]

remove_expired-IsClosed :
    (d now : ℕ) (m : List (Bytes × BrowserSession)) (s : Store)
    → IsClosed d s
    → IsClosed d (remove_expired now m s).1
unfolding remove_expired
remove_expired-IsClosed d now [] s h = h
remove_expired-IsClosed d now ((token, b) ∷ m) s h =
    let P = λ (r : List Bytes × Store). IsClosed d r.1 in
    if_both P (expired now b)
      (remove_expired-IsClosed d now m (remove_session token s)
        (remove_session-IsClosed d token s h))
      (remove_expired-IsClosed d now m s h)

prune-IsClosed : (d : ℕ) (clock : ℕ → ℕ) (s : Store) → IsClosed d s → IsClosed d (prune clock s).1
unfolding prune
prune-IsClosed d clock s h = remove_expired-IsClosed d (clock 0) s.sessions s h

reserve-IsClosed :
    (d : ℕ) (clock : ℕ → ℕ) (token csrf : Bytes) (s : Store)
    → IsClosed d s
    → IsClosed d (reserve clock token csrf s).2
unfolding reserve
reserve-IsClosed d clock token csrf s h =
    let P = λ (r : Reservation × List Bytes × Store). IsClosed d r.2 in
    let q = record s { channels = suc s.channels } in
    let p = (prune (λ i. clock (suc i)) q).1 in
    let j = prune-IsClosed d (λ i. clock (suc i)) q h in
    if_both P (leb p.max (length p.sessions + length p.pending)) j
      (if_both P (has_session token p || member token p.pending) j j)

settle_create-IsClosed :
    (d : ℕ) (clock : ℕ → ℕ) (token : Bytes) (b : BrowserSession) (saved : Bool) (s : Store)
    → IsClosed d s
    → IsClosed d (settle_create clock token b saved s).1
unfolding settle_create
settle_create-IsClosed d clock token b saved s h =
    if_both (λ (r : Bool × Store). IsClosed d r.1) (saved && ltb (clock 0) b.expires_at) h h

valid-IsClosed :
    (d : ℕ) (clock : ℕ → ℕ) (token : Bytes) (s : Store)
    → IsClosed d s
    → IsClosed d (valid clock token s).2
unfolding valid valid_found
valid-IsClosed d clock token s h =
    let P = λ (r : Option BrowserSession × List Bytes × Store). IsClosed d r.2 in
    if_both P (is_empty token) h (elim (Option-cases (lookup token s.sessions)) [
      | inl e ↦ rw e h
      | inr (b, e) ↦ rw e (if_both P (expired (clock 0) b) (remove_session-IsClosed d token s h) h)
    ])

matches-IsClosed :
    (d : ℕ) (clock : ℕ → ℕ) (token : Bytes) (x : BrowserSession) (s : Store)
    → IsClosed d s
    → IsClosed d (matches clock token x s).2
unfolding matches matches_found
matches-IsClosed d clock token x s h =
    let P = λ (r : Bool × List Bytes × Store). IsClosed d r.2 in
    if_both P (is_empty token) h (elim (Option-cases (lookup token s.sessions)) [
      | inl e ↦ rw e h
      | inr (b, e) ↦ rw e (if_both P (expired (clock 0) b) (remove_session-IsClosed d token s h) h)
    ])

revoke-IsClosed :
    (d : ℕ) (token : Bytes) (deleted : Bool) (s : Store)
    → IsClosed d s
    → IsClosed d (revoke token deleted s).1
unfolding revoke
revoke-IsClosed d token deleted s h =
    let P = λ (r : Bool × Store). IsClosed d r.1 in
    if_both P (is_empty token) h (if_both P (not deleted) h (remove_session-IsClosed d token s h))

begin_login-IsClosed :
    (d : ℕ) (clock : ℕ → ℕ) (token : Bytes) (s : Store)
    → IsClosed d s
    → IsClosed d (begin_login clock token s).2
unfolding begin_login admit_login
begin_login-IsClosed d clock token s h =
    let P = λ (r : LoginAdmission × List Bytes × Store). IsClosed d r.2 in
    let Q = λ (r : LoginAdmission × Store). IsClosed d r.1 in
    let p = (prune clock s).1 in
    let a = login_or_new (lookup token p.login_attempts) in
    let j = prune-IsClosed d clock s h in
    if_both P (not (has_session token p)) j
      (if_both Q a.in_flight j (if_both Q (leb 5 (renew_login (clock 3) a).failures) j j))

finish_reserved-IsClosed :
    (d now : ℕ) (token : Bytes) (successful counted : Bool) (o : Option LoginAttempt) (s : Store)
    → IsClosed d s
    → IsClosed d (finish_reserved now token successful counted o s)
unfolding finish_reserved
finish_reserved-IsClosed d now token successful counted none s h = h
finish_reserved-IsClosed d now token successful counted (some a) s h =
    if_both (IsClosed d) (not a.in_flight) h
      (if_both (IsClosed d) (successful || (failed_login now counted a).failures == 0) h h)

finish_login-IsClosed :
    (d : ℕ) (clock : ℕ → ℕ) (token : Bytes) (successful counted : Bool) (s : Store)
    → IsClosed d s
    → IsClosed d (finish_login clock token successful counted s).1
unfolding finish_login finish_found
finish_login-IsClosed d clock token successful counted s h =
    let P = λ (r : List Bytes × Store). IsClosed d r.1 in
    elim (Option-cases (lookup token s.sessions)) [
      | inl e ↦ rw e h
      | inr (b, e) ↦ rw e (
          if_both P (expired (clock 0) b) (remove_session-IsClosed d token s h) (
            finish_reserved-IsClosed d (clock 1) token successful counted
              (lookup token s.login_attempts) s h))
    ]

restore-IsClosed :
    (d : ℕ) (b : Encoding) (now : ℕ) (token csrf : Bytes) (expires_at : ℕ) (s : Store)
    → IsClosed d s
    → IsClosed d (restore b now token csrf expires_at s).1
unfolding restore
restore-IsClosed d b now token csrf expires_at s h =
    let P = λ (r : Option RestoreError × Store). IsClosed d r.1 in
    if_both P
      (not (valid_browser_session_secret b token)
        || not (valid_browser_session_secret b csrf)
        || not (ltb now expires_at)
        || ltb (now + s.ttl) expires_at)
      h (if_both P (leb s.max (length s.sessions)) h (if_both P (has_session token s) h h))

step-IsClosed : (d : ℕ) {x y : System} → Step x y → IsClosed d x.store → IsClosed d y.store
step-IsClosed d (restores b now token csrf expires_at {s}) h =
    restore-IsClosed d b now token csrf expires_at s h
step-IsClosed d (reserves clock token csrf {s} {c}) h = reserve-IsClosed d clock token csrf s h
step-IsClosed d (settles clock token b saved {s} {c} e) h =
    settle_create-IsClosed d clock token b saved s h
step-IsClosed d (validates clock token {s} {c}) h = valid-IsClosed d clock token s h
step-IsClosed d (compares clock token x {s} {c}) h = matches-IsClosed d clock token x s h
step-IsClosed d (revokes token deleted {s} {c}) h = revoke-IsClosed d token deleted s h
step-IsClosed d (begins_login clock token {s} {c}) h = begin_login-IsClosed d clock token s h
step-IsClosed d (finishes_login clock token successful counted {s} {c}) h =
    finish_login-IsClosed d clock token successful counted s h
step-IsClosed d (begins_access clock client) h = h
step-IsClosed d (finishes_access clock client successful counted) h = h

pub Steps-IsClosed : (d : ℕ) {x y : System} → Steps x y → IsClosed d x.store → IsClosed d y.store
Steps-IsClosed d none_more h = h
Steps-IsClosed d (more st rest) h = Steps-IsClosed d rest (step-IsClosed d st h)
