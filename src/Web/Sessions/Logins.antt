-- ===== src/Web/Sessions/Logins.antt =====
-- internal/web/security.go: the login attempts of a browser session.
use kfadapter.Base.{
  ℕ, suc, ◌+◌, ◌-◌, Bool, true, false, not, ◌&&◌, ◌||◌, List, [], ◌∷◌, Option, none, some,
  if◌then◌else◌, ltb, leb, ◌==◌,
}
use kfadapter.Base.Bytes.{Bytes}
use kfadapter.Base.Dict.{lookup, insert, delete}
use kfadapter.Web.Sessions.{
  BrowserSession, LoginAttempt, LoginAdmission, Store, no_login, has_session, remove_session,
  expired, prune,
}
use kfadapter.Web.Access.{minute}

abbrev pub login_or_new : Option LoginAttempt → LoginAttempt
login_or_new none = no_login
login_or_new (some a) = a

-- The attempt after its window: a new one.
unfoldable pub renew_login : ℕ → LoginAttempt → LoginAttempt
renew_login now a = if not (a.window_end == 0) && not (ltb now a.window_end) then no_login else a

unfoldable pub admit_login : ℕ → Bytes → LoginAttempt → Store → LoginAdmission × Store
unfolding renew_login
admit_login now token a s =
    if a.in_flight
    then (LoginAdmission.login_busy, s)
    else if leb 5 (renew_login now a).failures
    then (LoginAdmission.login_rate_limited ((renew_login now a).window_end - now), s)
    else (
      LoginAdmission.login_admitted,
      record s {
        login_attempts =
            insert token (record (renew_login now a) { in_flight = true }) s.login_attempts;
      },
    )

unfoldable pub begin_login : (ℕ → ℕ) → Bytes → Store → LoginAdmission × List Bytes × Store
unfolding admit_login
begin_login clock token s =
    let pruned = prune clock s in
    if not (has_session token pruned.1)
    then (LoginAdmission.login_session_inactive, pruned.0, pruned.1)
    else let r =
        admit_login (clock 3) token (login_or_new (lookup token pruned.1.login_attempts))
          pruned.1 in
      (r.0, pruned.0, r.1)

-- A failure that counts opens a window where there is none; the failures stop at five.
unfoldable pub count_failure : ℕ → LoginAttempt → LoginAttempt
count_failure now a = record {
  failures = if ltb a.failures 5 then suc a.failures else a.failures;
  window_end = if a.window_end == 0 then now + minute else a.window_end;
  in_flight = a.in_flight;
}

-- The attempt that an unsuccessful login leaves.
unfoldable pub failed_login : ℕ → Bool → LoginAttempt → LoginAttempt
unfolding count_failure
failed_login now counted a =
    let windowed =
      if not (a.window_end == 0) && not (ltb now a.window_end)
      then record a { failures = 0; window_end = 0 }
      else a in
    let released = record windowed { in_flight = false } in
    if counted then count_failure now released else released

unfoldable pub finish_reserved : ℕ → Bytes → Bool → Bool → Option LoginAttempt → Store → Store
unfolding failed_login
finish_reserved now token successful counted none s = s
finish_reserved now token successful counted (some a) s =
    if not a.in_flight
    then s
    else if successful || (failed_login now counted a).failures == 0
    then record s { login_attempts = delete token s.login_attempts }
    else record s { login_attempts = insert token (failed_login now counted a) s.login_attempts }

unfoldable pub finish_found :
    (ℕ → ℕ) → Bytes → Bool → Bool → Option BrowserSession → Store → List Bytes × Store
unfolding finish_reserved
finish_found clock token successful counted none s =
    ([], record s { login_attempts = delete token s.login_attempts })
finish_found clock token successful counted (some b) s =
    if expired (clock 0) b
    then (token ∷ [], remove_session token s)
    else ([], finish_reserved (clock 1) token successful counted (lookup token s.login_attempts) s)

unfoldable pub finish_login : (ℕ → ℕ) → Bytes → Bool → Bool → Store → List Bytes × Store
unfolding finish_found
finish_login clock token successful counted s =
    finish_found clock token successful counted (lookup token s.sessions) s
