-- ===== src/Web/Access/Lockout.antt =====
-- A client that is shut out for a minute, whatever the clients do.
use kfadapter.Base.{
  ℕ, ◌+◌, ◌-◌, ◌≤◌, ◌<◌, ◌≡◌, refl, ◌∙◌, ap, Bool, true, false, not, ◌||◌, List, [], ◌∷◌, Option,
  none, some, arith, Bool-cases, inl, inr,
}
use kfadapter.Base.Bytes.{Bytes, bytes_eq, bytes_eq→eq}
use kfadapter.Base.Dict.{lookup, insert, lookup-insert, lookup-insert_self}
use kfadapter.Base.Dict.Keys.{passing, lookup-delete, lookup-some-has_key}
use kfadapter.Web.Access.{
  AccessAttempt, Attempts, Admission, Call, begins, finishes, trim_access, begin_attempt,
  store_admitted, begin_tracked, begin_access, failed_attempt, finish_tracked, finish_access, step,
  run, attempt_or_new, minute,
}
use kfadapter.Web.Access.Bounds.{IsBounded, step-IsBounded, insert-IsBounded}
use kfadapter.Web.Access.Lookups.{
  live, lookup-trim_access, lookup-store_admitted, no_room, begin_tracked-no_room,
  begin_tracked-room,
}

-- An attempt whose block has not ended is refused and stays.
begin_attempt-blocked :
    (now : ℕ) (a : AccessAttempt)
    → a.in_flight ≡ false
    → now < a.blocked_to
    → begin_attempt now a ≡ (Admission.rate_limited (a.blocked_to - now), a)
unfolding begin_attempt
begin_attempt-blocked now a f e = ground arith

live-blocked :
    (now : ℕ) (a : AccessAttempt) → now < a.blocked_to → passing (live now) (some a) ≡ some a
live-blocked now a e = ground arith

-- Whether every reading of a call's clock is before a time.
abbrev pub Before : ℕ → (ℕ → ℕ) → Type 0
Before t clock = (i : ℕ) → clock i < t

blocked-trim_access :
    (now : ℕ) (k : Bytes) (m : Attempts) (a : AccessAttempt)
    → IsBounded m
    → lookup k m ≡ some a
    → now < a.blocked_to
    → lookup k (trim_access now m) ≡ some a
blocked-trim_access now k m a b e h =
    lookup-trim_access now k m b ∙ ap (passing (live now)) e ∙ live-blocked now a h

-- The blocked client is told how long the block still lasts.
pub blocked-begin_access :
    (clock : ℕ → ℕ) (k : Bytes) (m : Attempts) (a : AccessAttempt)
    → IsBounded m
    → lookup k m ≡ some a
    → a.in_flight ≡ false
    → Before a.blocked_to clock
    → begin_access clock k m
      ≡ (Admission.rate_limited (a.blocked_to - clock 1), trim_access (clock 0) m)
unfolding begin_access begin_tracked store_admitted
blocked-begin_access clock k m a b e f h =
    rw (blocked-trim_access (clock 0) k m a b e (h 0), begin_attempt-blocked (clock 1) a f (h 1))
      refl

-- A call of another client, and a finish of the client's own, leave the blocked attempt as it is.
blocked-store_admitted :
    (k j : Bytes) (m : Attempts) (r : Admission × AccessAttempt)
    → bytes_eq k j ≡ false
    → lookup j (store_admitted k m r).1 ≡ lookup j m
blocked-store_admitted k j m r e = lookup-store_admitted k j m r ∙ ground arith

blocked-begin_tracked :
    (now : ℕ) (k j : Bytes) (m : Attempts) (o : Option AccessAttempt)
    → bytes_eq k j ≡ false
    → lookup j (begin_tracked now k m o).1 ≡ lookup j m
blocked-begin_tracked now k j m o e = elim (Bool-cases (no_room m o)) [
  | inl full ↦ rw ((begin_tracked-no_room now k m o full).1) refl
  | inr room ↦
      rw (begin_tracked-room now k m o room)
        (blocked-store_admitted k j m (begin_attempt now (attempt_or_new o)) e)
]

blocked-finish_tracked :
    (clock : ℕ → ℕ) (k j : Bytes) (successful counted : Bool) (m : Attempts)
    (o : Option AccessAttempt) (a : AccessAttempt)
    → IsBounded m
    → lookup k m ≡ o
    → lookup j m ≡ some a
    → a.in_flight ≡ false
    → Before a.blocked_to clock
    → lookup j (finish_tracked clock k successful counted m o) ≡ some a
unfolding finish_tracked
blocked-finish_tracked clock k j successful counted m none a b eo e f h = e
blocked-finish_tracked clock k j successful counted m (some w) a b eo e f h =
    elim (Bool-cases w.in_flight) [
      | inr out ↦ rw out e
      | inl busy ↦
          let apart : bytes_eq k j ≡ false = ground (arith, bytes_eq→eq k j) in
          elim (Bool-cases (successful || not counted)) [
            | inl g ↦ rw (busy, g, lookup-delete k j m, apart) e
            | inr g ↦
                rw (busy, g)
                  (blocked-trim_access (clock 1) j (insert k (failed_attempt (clock 0) w) m) a
                    (insert-IsBounded k (failed_attempt (clock 0) w) m
                      (lookup-some-has_key k m w eo) b)
                    (rw (lookup-insert k j (failed_attempt (clock 0) w) m, apart) e) (h 1))
          ]
    ]

pub blocked-step :
    (clock : ℕ → ℕ) (c : Call) (j : Bytes) (m : Attempts) (a : AccessAttempt)
    → IsBounded m
    → lookup j m ≡ some a
    → a.in_flight ≡ false
    → Before a.blocked_to clock
    → lookup j (step clock c m).1 ≡ some a
unfolding step begin_access finish_access
blocked-step clock (begins k) j m a b e f h = elim (Bool-cases (bytes_eq k j)) [
  | inl same ↦
      let own : lookup k m ≡ some a = ap (λ x. lookup x m) (bytes_eq→eq k j same) ∙ e in
      rw (← bytes_eq→eq k j same, blocked-begin_access clock k m a b own f h)
        (blocked-trim_access (clock 0) k m a b own (h 0))
  | inr apart ↦
      blocked-begin_tracked (clock 1) k j (trim_access (clock 0) m)
        (lookup k (trim_access (clock 0) m)) apart
      ∙ blocked-trim_access (clock 0) j m a b e (h 0)
]
blocked-step clock (finishes k successful counted) j m a b e f h =
    blocked-finish_tracked clock k j successful counted m (lookup k m) a b refl e f h

abbrev pub AllBefore : ℕ → List ((ℕ → ℕ) × Call) → Type 0
AllBefore t [] = Unit {0}
AllBefore t ((clock, c) ∷ cs) = Before t clock × AllBefore t cs

-- A client whose attempt is blocked and not in flight is refused, with the time that is left, after
-- any sequence of calls whose clock readings are before the end of the block; its attempt does not
-- change, whatever the clients did. The table is within its bounds.
pub run-blocked :
    (cs : List ((ℕ → ℕ) × Call)) (clock : ℕ → ℕ) (k : Bytes) (m : Attempts) (a : AccessAttempt)
    → IsBounded m
    → lookup k m ≡ some a
    → a.in_flight ≡ false
    → AllBefore a.blocked_to cs
    → Before a.blocked_to clock
    → (lookup k (run cs m) ≡ some a)
      × ((begin_access clock k (run cs m)).0 ≡ Admission.rate_limited (a.blocked_to - clock 1))
unfolding run
run-blocked [] clock k m a b e f hs h =
    (e, ap (λ r. r.0) (blocked-begin_access clock k m a b e f h))
run-blocked ((c, call) ∷ cs) clock k m a b e f hs h =
    run-blocked cs clock k (step c call m).1 a (step-IsBounded c call m b)
      (blocked-step c call k m a b e f hs.0) f hs.1 h

-- The attempt that the fifth failure leaves.
abbrev pub shut_out : ℕ → AccessAttempt
shut_out now = record {
  failures = 0;
  window_end = now + minute;
  blocked_to = now + minute;
  in_flight = false;
}

failed_attempt-fifth :
    (now : ℕ) (a : AccessAttempt)
    → 4 ≤ a.failures
    → now < a.window_end
    → failed_attempt now a ≡ shut_out now
unfolding failed_attempt
failed_attempt-fifth now a four open_window = ground arith

finish_access-fifth :
    (clock : ℕ → ℕ) (k : Bytes) (m : Attempts) (a : AccessAttempt)
    → IsBounded m
    → lookup k m ≡ some a
    → a.in_flight ≡ true
    → 4 ≤ a.failures
    → clock 0 < a.window_end
    → clock 1 < clock 0 + minute
    → lookup k (finish_access clock k false true m) ≡ some (shut_out (clock 0))
unfolding finish_access finish_tracked
finish_access-fifth clock k m a b e busy four open_window soon =
    rw (e, busy, failed_attempt-fifth (clock 0) a four open_window)
      (blocked-trim_access (clock 1) k (insert k (shut_out (clock 0)) m) (shut_out (clock 0))
        (insert-IsBounded k (shut_out (clock 0)) m (lookup-some-has_key k m a e) b)
        (lookup-insert_self k (shut_out (clock 0)) m) soon)

-- The fifth counted failure of a client within its window shuts it out for a minute: after any
-- sequence of calls, of any clients, whose clock readings are within the minute, its next attempt is
-- refused with the time that is left.
pub fifth_failure_shuts_out :
    (clock later : ℕ → ℕ) (cs : List ((ℕ → ℕ) × Call)) (k : Bytes) (m : Attempts)
    (a : AccessAttempt)
    → IsBounded m
    → lookup k m ≡ some a
    → a.in_flight ≡ true
    → 4 ≤ a.failures
    → clock 0 < a.window_end
    → clock 1 < clock 0 + minute
    → AllBefore (clock 0 + minute) cs
    → Before (clock 0 + minute) later
    → (begin_access later k (run cs (finish_access clock k false true m))).0
      ≡ Admission.rate_limited (clock 0 + minute - later 1)
unfolding finish_access step
fifth_failure_shuts_out clock later cs k m a b e busy four open_window soon hs h =
    (run-blocked cs later k (finish_access clock k false true m) (shut_out (clock 0))
      (step-IsBounded clock (finishes k false true) m b)
      (finish_access-fifth clock k m a b e busy four open_window soon) refl hs h).1
