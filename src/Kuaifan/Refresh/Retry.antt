-- ===== src/Kuaifan/Refresh/Retry.antt =====
-- internal/kuaifan/refresh.go and profile/profile.go: repeated calls, their delays, and the random numbers.
use kfadapter.Base.{
  ℕ, zero, suc, ◌+◌, ◌-◌, ◌*◌, ◌/◌, ◌%◌, ◌^◌, ◌≤◌, ◌<◌, ◌≡◌, refl, sym, ap, ◌∙◌, Bool, true, false,
  ◌&&◌, ◌||◌, not, List, [], ◌∷◌, Option, none, some, leb, ltb, ◌==◌, if◌then◌else◌, arith,
  Bool-cases, Option-cases, inl, inr,
}
pub mod Bounds

-- What the error of a call is, as far as `retryable` tells.
pub data Fault : Type 0 where
  cancelled deadline_exceeded login_rejected business_status schema invalid_envelope
        invalid_padding :
      Fault
  malformed_ciphertext response_too_large unsupported_cipher invalid_line other_fault : Fault
  http_status : ℕ → Fault
  network : Bool → Bool → Fault

unfoldable pub retryable : Fault → Bool
retryable (http_status s) = s == 408 || s == 429 || (leb 500 s && leb s 599)
retryable (network timeout temporary) = timeout || temporary
retryable cancelled = false
retryable deadline_exceeded = false
retryable login_rejected = false
retryable business_status = false
retryable schema = false
retryable invalid_envelope = false
retryable invalid_padding = false
retryable malformed_ciphertext = false
retryable response_too_large = false
retryable unsupported_cipher = false
retryable invalid_line = false
retryable other_fault = false

-- What a call returns: a value, or an error. `stopped` is the context's own error.
pub data Attempt {ℓ} (A : Type ℓ) : Type ℓ where
  value : A → Attempt A
  fault : Fault → Attempt A
  stopped : Attempt A
  no_value : Attempt A

abbrev pub again {ℓ} : {A : Type ℓ} → Attempt A → Bool
again (value a) = false
again (fault f) = retryable f
again stopped = false
again no_value = false

-- `retry` from an attempt on, with the number of attempts that are left: what it returns, and how often
-- it calls. `call i` is what the i-th call returns; `gone (2 * i)` and `gone (2 * i + 1)` say
-- whether the context is done before it and while waiting after it. With no attempts at all it
-- returns the zero value, `no_value`.
unfoldable pub retry_from {ℓ} : {A : Type ℓ} → ℕ → ℕ → (ℕ → Bool) → (ℕ → Attempt A) → Attempt A × ℕ
retry_from zero i gone call = (no_value, 0)
retry_from (suc left) i gone call =
    let rest = retry_from left (suc i) gone call in
    if gone (2 * i)
    then (stopped, 0)
    else if not (again (call i)) || left == 0
    then (call i, 1)
    else if gone (2 * i + 1)
    then (stopped, 1)
    else (rest.0, suc rest.1)

unfoldable pub retry {ℓ} : {A : Type ℓ} → ℕ → (ℕ → Bool) → (ℕ → Attempt A) → Attempt A × ℕ
unfolding retry_from
retry attempts gone call = retry_from attempts 0 gone call

-- `MaxAttempts` as `NewRefresher` takes it, a number that is not positive being 0.
unfoldable pub attempts_of : ℕ → ℕ
attempts_of n = if n == 0 then 3 else if ltb 5 n then 5 else n

-- 5 seconds and 250 milliseconds, in nanoseconds.
abbrev pub default_max_backoff : ℕ
default_max_backoff = 5_000_000_000

-- The bounds of the delay, if they are valid.
unfoldable pub backoff_bounds : ℕ → ℕ → Option (ℕ × ℕ)
backoff_bounds lowest highest =
    let low = if lowest == 0 then 250_000_000 else lowest in
    let high =
      if highest == 0 || ltb default_max_backoff highest then default_max_backoff else highest in
    if ltb high low then none else some (low, high)

-- The loop of `retryDelay`.
unfoldable pub backoff_base : ℕ → ℕ → ℕ → ℕ
backoff_base zero highest base = base
backoff_base (suc attempt) highest base =
    let doubled = backoff_base attempt highest (base * 2) in
    if leb (highest / 2) base then highest else doubled

abbrev pub millisecond : ℕ
millisecond = 1_000_000

-- The samples of a reader: at most 256 values need one byte, more need four. `none` is a failed read
-- or a bound that is not positive.
abbrev pub draw_bytes : ℕ → ℕ → List ℕ → Option ℕ
draw_bytes limit n [] = none
draw_bytes limit n (s ∷ ss) =
    let rest = draw_bytes limit n ss in if ltb s limit then some (s % n) else rest

unfoldable pub random_int : List ℕ → List ℕ → ℕ → Option ℕ
random_int bytes words n =
    if n == 0
    then none
    else if leb n 256
    then draw_bytes (256 - 256 % n) n bytes
    else draw_bytes (2 ^ 32 - 2 ^ 32 % n) n words

abbrev pub jittered : ℕ → Option ℕ → ℕ
jittered base none = base
jittered base (some j) = j * millisecond

unfoldable pub retry_delay : ℕ → ℕ → List ℕ → List ℕ → ℕ → ℕ
unfolding backoff_base random_int
retry_delay lowest highest bytes words attempt =
    let base = backoff_base attempt highest lowest in
    jittered base (random_int bytes words (base / millisecond + 1))
