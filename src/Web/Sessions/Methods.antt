-- ===== src/Web/Sessions/Methods.antt =====
-- Every other call on the store of browser sessions keeps it sound.
use kfadapter.Base.{
  ℕ, suc, ◌+◌, ◌<◌, ◌≡◌, refl, Bool, true, not, ◌||◌, [], Option, none, some, length, ltb, leb,
  ◌==◌, is_empty, arith, if_both, Bool-cases, Option-cases, inl, inr,
}
use kfadapter.Base.Bytes.{Bytes, bytes_eq→eq}
use kfadapter.Base.Dict.{lookup, insert, length-insert}
use kfadapter.Base.Dict.Keys.{has_key, unique_keys-insert, has_key-insert, lookup-some-has_key}
use kfadapter.Web.Sessions.{
  BrowserSession, LoginAttempt, LoginAdmission, Store, has_session, expired, prune,
}
use kfadapter.Web.Sessions.Channels.{count-insert}
use kfadapter.Web.Sessions.Calls.{valid, valid_found, revoke, matches, matches_found}
use kfadapter.Web.Sessions.Logins.{
  login_or_new, renew_login, admit_login, begin_login, failed_login, finish_reserved, finish_found,
}
use kfadapter.Web.Sessions.Sound.{
  IsSound, Creating, attempts-IsSound, forget-IsSound, remove_session-IsSound, prune-IsSound,
}
use kfadapter.Web.Sessions.{Encoding, valid_browser_session_secret, restore, RestoreError}

pub valid-IsSound :
    (clock : ℕ → ℕ) (token : Bytes) (s : Store) (c : Creating)
    → IsSound s c []
    → IsSound (valid clock token s).2 c []
unfolding valid valid_found
valid-IsSound clock token s c i = elim (Bool-cases (is_empty token)) [
  | inl e ↦ rw e i
  | inr e ↦ elim (Option-cases (lookup token s.sessions)) [
    | inl missing ↦ rw (e, missing) i
    | inr (b, found) ↦ elim (Bool-cases (expired (clock 0) b)) [
      | inl old ↦ rw (e, found, old) (remove_session-IsSound token s c [] i)
      | inr new ↦ rw (e, found, new) i
    ]
  ]
]

pub matches-IsSound :
    (clock : ℕ → ℕ) (token : Bytes) (x : BrowserSession) (s : Store) (c : Creating)
    → IsSound s c []
    → IsSound (matches clock token x s).2 c []
unfolding matches matches_found
matches-IsSound clock token x s c i = elim (Bool-cases (is_empty token)) [
  | inl e ↦ rw e i
  | inr e ↦ elim (Option-cases (lookup token s.sessions)) [
    | inl missing ↦ rw (e, missing) i
    | inr (b, found) ↦ elim (Bool-cases (expired (clock 0) b)) [
      | inl old ↦ rw (e, found, old) (remove_session-IsSound token s c [] i)
      | inr new ↦ rw (e, found, new) i
    ]
  ]
]

pub revoke-IsSound :
    (token : Bytes) (deleted : Bool) (s : Store) (c : Creating)
    → IsSound s c []
    → IsSound (revoke token deleted s).1 c []
unfolding revoke
revoke-IsSound token deleted s c i = elim (Bool-cases (is_empty token)) [
  | inl e ↦ rw e i
  | inr e ↦ elim (Bool-cases deleted) [
    | inl d ↦ rw (e, d) (remove_session-IsSound token s c [] i)
    | inr d ↦ rw (e, d) i
  ]
]

-- Writing the attempt of a session that is there.
write-IsSound :
    (s : Store) (c : Creating) (token : Bytes) (a : LoginAttempt)
    → has_key token s.sessions ≡ true
    → IsSound s c []
    → IsSound (record s { login_attempts = insert token a s.login_attempts }) c []
write-IsSound s c token a there i =
    attempts-IsSound s c [] (insert token a s.login_attempts) s.access_attempts i
      (unique_keys-insert token a s.login_attempts i.one_attempt)
      (λ k h.
        ground (arith, has_key-insert token k a s.login_attempts, bytes_eq→eq token k, i.active k))

admit_login-IsSound :
    (now : ℕ) (token : Bytes) (a : LoginAttempt) (s : Store) (c : Creating)
    → has_key token s.sessions ≡ true
    → IsSound s c []
    → IsSound (admit_login now token a s).1 c []
unfolding admit_login
admit_login-IsSound now token a s c there i =
    let P = λ (r : LoginAdmission × Store). IsSound r.1 c [] in
    if_both P a.in_flight i (
      if_both P (leb 5 (renew_login now a).failures) i
        (write-IsSound s c token (record (renew_login now a) { in_flight = true }) there i))

pub begin_login-IsSound :
    (clock : ℕ → ℕ) (token : Bytes) (s : Store) (c : Creating)
    → IsSound s c []
    → IsSound (begin_login clock token s).2 c []
unfolding begin_login
begin_login-IsSound clock token s c i =
    let p = (prune clock s).1 in
    let j = prune-IsSound clock s c [] i in
    elim (Bool-cases (has_session token p)) [
      | inr e ↦ rw e j
      | inl e ↦ rw e (
          admit_login-IsSound (clock 3) token (login_or_new (lookup token p.login_attempts)) p c e
            j)
    ]

finish_reserved-IsSound :
    (now : ℕ) (token : Bytes) (successful counted : Bool) (o : Option LoginAttempt) (s : Store)
    (c : Creating)
    → has_key token s.sessions ≡ true
    → IsSound s c []
    → IsSound (finish_reserved now token successful counted o s) c []
unfolding finish_reserved
finish_reserved-IsSound now token successful counted none s c there i = i
finish_reserved-IsSound now token successful counted (some a) s c there i =
    let P = λ (r : Store). IsSound r c [] in
    if_both P (not a.in_flight) i (
      if_both P (successful || (failed_login now counted a).failures == 0)
        (forget-IsSound s c [] token i)
        (write-IsSound s c token (failed_login now counted a) there i))

pub finish_found-IsSound :
    (clock : ℕ → ℕ) (token : Bytes) (successful counted : Bool) (o : Option BrowserSession)
    (s : Store) (c : Creating)
    → lookup token s.sessions ≡ o
    → IsSound s c []
    → IsSound (finish_found clock token successful counted o s).1 c []
unfolding finish_found
finish_found-IsSound clock token successful counted none s c e i = forget-IsSound s c [] token i
finish_found-IsSound clock token successful counted (some b) s c e i =
    elim (Bool-cases (expired (clock 0) b)) [
      | inl old ↦ rw old (remove_session-IsSound token s c [] i)
      | inr new ↦ rw new (
          finish_reserved-IsSound (clock 1) token successful counted (lookup token s.login_attempts)
            s c (lookup-some-has_key token s.sessions b e) i)
    ]

restored-IsSound :
    (s : Store) (token csrf : Bytes) (expires_at : ℕ)
    → length s.sessions < s.max
    → IsSound s [] []
    → IsSound
        (record s {
          sessions =
              insert token
                (record { csrf = csrf; expires_at = expires_at; done = s.channels })
                s.sessions;
          channels = suc s.channels;
        })
        []
        []
restored-IsSound s token csrf expires_at small i =
    let b : BrowserSession = record { csrf = csrf; expires_at = expires_at; done = s.channels } in
    record {
      one_session = unique_keys-insert token b s.sessions i.one_session;
      one_attempt = i.one_attempt;
      one_creation = refl;
      active = λ k h. ground (arith, has_key-insert token k b s.sessions, i.active k);
      reserved_tokens = i.reserved_tokens;
      room = omega (arith, small, length-insert token b s.sessions);
      one_place = λ d. ground (arith, i.one_place d, count-insert d token b s.sessions);
    }

pub restore-IsSound :
    (b : Encoding) (now : ℕ) (token csrf : Bytes) (expires_at : ℕ) (s : Store)
    → IsSound s [] []
    → IsSound (restore b now token csrf expires_at s).1 [] []
unfolding restore
restore-IsSound b now token csrf expires_at s i =
    let P = λ (r : Option RestoreError × Store). IsSound r.1 [] [] in
    if_both P
      (not (valid_browser_session_secret b token)
        || not (valid_browser_session_secret b csrf)
        || not (ltb now expires_at)
        || ltb (now + s.ttl) expires_at)
      i
      (elim (Bool-cases (leb s.max (length s.sessions))) [
        | inl full ↦ rw full i
        | inr free ↦ rw free (
            if_both P (has_session token s) i
              (restored-IsSound s token csrf expires_at (ground arith) i))
      ])
