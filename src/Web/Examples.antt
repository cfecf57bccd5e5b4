-- ===== src/Web/Examples.antt =====
-- The theorems on the throttle, the sessions and the diagnostics, at clients, sessions and values that
-- go through them.
use kfadapter.Base.{ℕ, ◌+◌, ◌-◌, ◌≡◌, refl, Bool, true, false, List, [], ◌∷◌, Option, some, arith}
use kfadapter.Base.Bytes.{Bytes, codes}
use kfadapter.Base.Dict.{lookup, insert, delete}
use kfadapter.Web.Access.{
  AccessAttempt, Attempts, Admission, Call, begins, finishes, no_attempt, minute, begin_access,
  finish_access, run,
}
use kfadapter.Web.Access.Throttle.{Throttle}
use kfadapter.Web.Access.Lockout.{fifth_failure_shuts_out}
use kfadapter.Web.Sessions.{BrowserSession, Store, new_session_store, prune}
use kfadapter.Web.Sessions.Calls.{create, reserve, settle_create, valid, revoke, matches}
use kfadapter.Web.Sessions.Sound.{IsSound, Creating}
use kfadapter.Web.Sessions.Run.{
  System, at, reserves, settles, revokes, none_more, more, reachable-IsSound,
}
use kfadapter.Web.Sessions.Revocation.{revoke-matches}
use kfadapter.Web.Sessions.RoundTrip.{valid-create}
use kfadapter.Web.Diagnostics.{
  Json, text, number, object, field, no_fields, array, value, no_values, redact_diagnostic,
}
use kfadapter.Web.Diagnostics.Redaction.{IsShut, redact_diagnostic-IsShut}

-- Two attempts, the first of them failing.
abbrev some_calls : List ((ℕ → ℕ) × Call)
some_calls =
    (λ i. 5 + i, begins (codes "loopback"))
    ∷ (λ i. 9 + i, begins (codes "loopback"))
    ∷ (λ i. 20 + i, finishes (codes "loopback") false true)
    ∷ (λ i. 30 + i, begins (codes "10.0.0.7"))
    ∷ []

abbrev untouched : Throttle
untouched k = no_attempt

-- A client with four failures in its window, at its fifth attempt.
abbrev failing : AccessAttempt
failing = record { failures = 4; window_end = 10; blocked_to = 0; in_flight = true }

abbrev failing_table : Attempts
failing_table = (codes "loopback", failing) ∷ []

abbrev at_five : ℕ → ℕ
at_five i = 5

abbrev at_seven : ℕ → ℕ
at_seven i = 7

abbrev other_calls : List ((ℕ → ℕ) × Call)
other_calls =
    (at_seven, begins (codes "10.0.0.7")) ∷ (at_seven, finishes (codes "loopback") true false) ∷ []

fifth_failure_shuts_out_example :
    (begin_access at_seven
      (codes "loopback")
      (run other_calls (finish_access at_five (codes "loopback") false true failing_table))).0
    ≡ Admission.rate_limited (5 + minute - 7)
unfolding lookup
fifth_failure_shuts_out_example =
    fifth_failure_shuts_out at_five at_seven other_calls (codes "loopback") failing_table failing
      (record { one_entry = refl; within_bound = omega arith }) refl refl (omega arith)
      (omega arith) (omega arith) (λ i. omega arith, (λ i. omega arith, tt)) (λ i. omega arith)

-- A session that lasts 100 from 5 on, in a store for two.
abbrev small_store : Store
small_store = new_session_store 100 2

abbrev a_token : Bytes
a_token = codes "token"

abbrev a_session : BrowserSession
a_session = record { csrf = codes "csrf"; expires_at = 105; done = 0 }

abbrev reserved_store : Store
reserved_store = (reserve at_five a_token (codes "csrf") small_store).2

abbrev stored : Store
stored = (settle_create at_seven a_token a_session true reserved_store).1

abbrev a_creating : Creating
a_creating = (a_token, a_session) ∷ []

reachable-IsSound_example : IsSound (revoke a_token true stored).1 (delete a_token a_creating) []
unfolding new_session_store reserve prune lookup
reachable-IsSound_example =
    reachable-IsSound 100 2 (at (revoke a_token true stored).1 (delete a_token a_creating)) (
      more (reserves at_five a_token (codes "csrf")) (
        more (settles at_seven a_token a_session true refl)
          (more (revokes a_token true) none_more)))

abbrev stored_system : System
stored_system = at stored (delete a_token a_creating)

revoke-matches_example :
    (matches at_seven a_token a_session (revoke a_token true stored).1).0 ≡ false
unfolding new_session_store reserve prune lookup settle_create insert
revoke-matches_example =
    revoke-matches a_token a_session stored_system
      (at (revoke a_token true stored).1 (delete a_token a_creating)) at_seven a_token
      (reachable-IsSound 100 2 stored_system (
        more (reserves at_five a_token (codes "csrf"))
          (more (settles at_seven a_token a_session true refl) none_more)))
      refl refl none_more

-- The second token that is drawn collides with nothing.
abbrev draws : ℕ → Option Bytes
draws i = some a_token

abbrev round_clock : ℕ → ℕ → ℕ
round_clock i k = 5

abbrev saves : Bytes → Bytes → ℕ → ℕ → Bool
saves token csrf expires_at limit = true

abbrev a_session_for_itself : BrowserSession
a_session_for_itself = record { csrf = a_token; expires_at = 105; done = 0 }

valid-create_example :
    valid at_seven a_token (create draws round_clock saves small_store).2
    ≡ (some a_session_for_itself, [], (create draws round_clock saves small_store).2)
unfolding create new_session_store prune lookup
valid-create_example =
    valid-create draws round_clock saves small_store a_token a_session_for_itself at_seven refl refl
      (omega arith)

-- A value with a password two levels down and a proxy address in a list.
abbrev a_diagnostic : Json
a_diagnostic = object (
    field (codes "login")
      (object (field (codes "Pass_word") (array (value (number (codes "7")) no_values)) no_fields))
      (field (codes "notes")
        (array (value (text (codes "see socks5://x")) (value (text (codes "fine")) no_values)))
        no_fields))

abbrev same_case : Bytes → Bytes
same_case s = s

redact_diagnostic-IsShut_example :
    IsShut same_case [] (redact_diagnostic same_case (some a_diagnostic))
redact_diagnostic-IsShut_example = redact_diagnostic-IsShut same_case (some a_diagnostic)
