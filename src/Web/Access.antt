-- ===== src/Web/Access.antt =====
-- internal/web/security.go: the throttle of access-token attempts. The table is keyed by the client's
-- identity; `clock k` is the k-th reading of the clock within a call. A range over the table takes
-- the entries in order.
use kfadapter.Base.{
  ℕ, zero, suc, ◌+◌, ◌-◌, ◌≤◌, ◌<◌, ◌≡◌, refl, Bool, true, false, not, ◌&&◌, ◌||◌, List, [], ◌∷◌,
  Option, none, some, length, if◌then◌else◌, ltb, leb, ◌==◌,
}
use kfadapter.Base.Bytes.{Bytes, bytes_eq}
use kfadapter.Base.Dict.{lookup, insert, delete, keep}
pub mod Bounds
pub mod Lookups
pub mod Throttle
pub mod Refinement
pub mod Lockout

pub record AccessAttempt : Type 0 where
  pub failures : ℕ
  pub window_end : ℕ
  pub blocked_to : ℕ
  pub in_flight : Bool

-- `accessAttempt{}`
abbrev pub no_attempt : AccessAttempt
no_attempt = record { failures = 0; window_end = 0; blocked_to = 0; in_flight = false }

abbrev pub Attempts : Type 0
Attempts = List (Bytes × AccessAttempt)

-- An admission, with the delay that the caller is told.
pub data Admission : Type 0 where
  admitted busy : Admission
  rate_limited : ℕ → Admission

-- One second and one minute, in nanoseconds.
abbrev pub second : ℕ
second = 1_000_000_000

abbrev pub minute : ℕ
minute = 60_000_000_000

abbrev pub max_attempts : ℕ
max_attempts = 1024

abbrev pub idle : ℕ → AccessAttempt → Bool
idle now a = not a.in_flight && not (ltb now a.window_end) && not (ltb now a.blocked_to)

-- The second range of `trimAccessAttemptsLocked`: entries not in flight go until `n` are gone.
evict : ℕ → Attempts → Attempts
evict n [] = []
evict zero (x ∷ m) = x ∷ m
evict (suc n) ((k, a) ∷ m) =
    let stay = evict (suc n) m in
    let gone = evict n m in if a.in_flight then (k, a) ∷ stay else gone

pub trim_access : ℕ → Attempts → Attempts
unfolding evict
trim_access now m =
    let live = keep (λ a. not (idle now a)) m in
    if leb (length live) max_attempts then live else evict (length live - max_attempts) live

-- The rest of `beginAccess` for the attempt that the table holds, or a new one.
unfoldable pub begin_attempt : ℕ → AccessAttempt → Admission × AccessAttempt
begin_attempt now a =
    if a.in_flight
    then (busy, a)
    else if ltb now a.blocked_to
    then (rate_limited (a.blocked_to - now), a)
    else if not (a.window_end == 0) && not (ltb now a.window_end)
    then (admitted, record no_attempt { in_flight = true })
    else (admitted, record a { in_flight = true })

abbrev pub attempt_or_new : Option AccessAttempt → AccessAttempt
attempt_or_new none = no_attempt
attempt_or_new (some a) = a

abbrev pub is_admitted : Admission → Bool
is_admitted admitted = true
is_admitted busy = false
is_admitted (rate_limited d) = false

-- The table is written only where the attempt is admitted.
pub store_admitted : Bytes → Attempts → Admission × AccessAttempt → Admission × Attempts
store_admitted client m (answer, a) = (answer, if is_admitted answer then insert client a m else m)

pub begin_tracked : ℕ → Bytes → Attempts → Option AccessAttempt → Admission × Attempts
unfolding store_admitted begin_attempt
begin_tracked now client m (some a) = store_admitted client m (begin_attempt now a)
begin_tracked now client m none =
    if leb max_attempts (length m)
    then (rate_limited second, m)
    else store_admitted client m (begin_attempt now no_attempt)

unfoldable pub begin_access : (ℕ → ℕ) → Bytes → Attempts → Admission × Attempts
unfolding begin_tracked trim_access
begin_access clock client m =
    let t = trim_access (clock 0) m in begin_tracked (clock 1) client t (lookup client t)

-- A counted failure.
unfoldable pub failed_attempt : ℕ → AccessAttempt → AccessAttempt
failed_attempt now a =
    let failures = if a.window_end == 0 || not (ltb now a.window_end) then 1 else suc a.failures in
    let window_end =
      if a.window_end == 0 || not (ltb now a.window_end) then now + minute else a.window_end in
    if leb 5 failures
    then record {
      failures = 0;
      window_end = now + minute;
      blocked_to = now + minute;
      in_flight = false;
    }
    else record {
      failures = failures;
      window_end = window_end;
      blocked_to = a.blocked_to;
      in_flight = false;
    }

pub finish_tracked : (ℕ → ℕ) → Bytes → Bool → Bool → Attempts → Option AccessAttempt → Attempts
unfolding failed_attempt trim_access
finish_tracked clock client successful counted m none = m
finish_tracked clock client successful counted m (some a) =
    if not a.in_flight
    then m
    else if successful || not counted
    then delete client m
    else trim_access (clock 1) (insert client (failed_attempt (clock 0) a) m)

unfoldable pub finish_access : (ℕ → ℕ) → Bytes → Bool → Bool → Attempts → Attempts
unfolding finish_tracked
finish_access clock client successful counted m =
    finish_tracked clock client successful counted m (lookup client m)

-- The calls of the two methods, and a sequence of them with the answers of the first.
pub data Call : Type 0 where
  begins : Bytes → Call
  finishes : Bytes → Bool → Bool → Call

abbrev pub Answer : Type 0
Answer = Option Admission

unfoldable pub step : (ℕ → ℕ) → Call → Attempts → Answer × Attempts
unfolding begin_access finish_access
step clock (begins client) m =
    (some (begin_access clock client m).0, (begin_access clock client m).1)
step clock (finishes client successful counted) m =
    (none, finish_access clock client successful counted m)

unfoldable pub run : List ((ℕ → ℕ) × Call) → Attempts → Attempts
unfolding step
run [] m = m
run ((clock, c) ∷ cs) m = run cs (step clock c m).1
