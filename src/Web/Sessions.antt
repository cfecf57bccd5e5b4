-- ===== src/Web/Sessions.antt =====
-- internal/web/security.go: the store of browser sessions. Each function is what one method does
-- while it holds the lock, or a method made of those; `clock k` is the k-th reading of the clock
-- within it. A channel is a number that no other channel has. What the persistence is told to
-- delete is returned, since its answer is not read.
use kfadapter.Base.{
  ℕ, zero, suc, ◌+◌, ◌-◌, ◌*◌, ◌≤◌, ◌<◌, ◌≡◌, refl, Bool, true, false, not, ◌&&◌, ◌||◌, List, [],
  ◌∷◌, ◌++◌, Option, none, some, length, if◌then◌else◌, ltb, leb, ◌==◌, any, is_empty,
}
use kfadapter.Base.Bytes.{Bytes, bytes_eq}
use kfadapter.Base.Dict.{lookup, insert, delete, keep, member}
use kfadapter.Base.Dict.Keys.{has_key}
use kfadapter.Web.Access.{AccessAttempt, Attempts, trim_access, second, minute}
pub mod Calls
pub mod Logins
pub mod Channels
pub mod Sound
pub mod Creation
pub mod Methods
pub mod Run
pub mod Closing
pub mod Revocation
pub mod RoundTrip

pub record BrowserSession : Type 0 where
  pub csrf : Bytes
  pub expires_at : ℕ
  pub done : ℕ

pub record LoginAttempt : Type 0 where
  pub failures : ℕ
  pub window_end : ℕ
  pub in_flight : Bool

-- `loginAttempt{}`
abbrev pub no_login : LoginAttempt
no_login = record { failures = 0; window_end = 0; in_flight = false }

pub data LoginAdmission : Type 0 where
  login_admitted login_busy login_session_inactive : LoginAdmission
  login_rate_limited : ℕ → LoginAdmission

-- `closed` are the channels that were closed, in order; `channels` counts those that were made.
pub record Store : Type 0 where
  pub sessions : List (Bytes × BrowserSession)
  pub pending : List Bytes
  pub access_attempts : Attempts
  pub login_attempts : List (Bytes × LoginAttempt)
  pub ttl : ℕ
  pub max : ℕ
  pub channels : ℕ
  pub closed : List ℕ

-- The defaults are eight hours and 128 sessions.
unfoldable pub new_session_store : ℕ → ℕ → Store
new_session_store ttl max = record {
  sessions = [];
  pending = [];
  access_attempts = [];
  login_attempts = [];
  ttl = if ttl == 0 then 480 * minute else ttl;
  max = if max == 0 then 128 else max;
  channels = 0;
  closed = [];
}

-- `base64.RawURLEncoding`
pub record Encoding : Type 0 where
  pub encode : Bytes → Bytes
  pub decode : Bytes → Option Bytes

abbrev is_secret : Encoding → Bytes → Option Bytes → Bool
is_secret b value none = false
is_secret b value (some decoded) = length decoded == 32 && bytes_eq (b.encode decoded) value

unfoldable pub valid_browser_session_secret : Encoding → Bytes → Bool
valid_browser_session_secret b value = is_secret b value (b.decode value)

unfoldable pub exact_secret_equal : Bytes → Bytes → Bool
exact_secret_equal expected given =
    if is_empty expected || not (length expected == length given)
    then false
    else bytes_eq expected given

pub data RestoreError : Type 0 where
  invalid_persisted_session session_limit_exceeded duplicate_session : RestoreError

abbrev pub has_session : Bytes → Store → Bool
has_session token s = has_key token s.sessions

unfoldable pub restore : Encoding → ℕ → Bytes → Bytes → ℕ → Store → Option RestoreError × Store
unfolding valid_browser_session_secret
restore b now token csrf expires_at s =
    if not (valid_browser_session_secret b token)
      || not (valid_browser_session_secret b csrf)
      || not (ltb now expires_at)
      || ltb (now + s.ttl) expires_at
    then (some RestoreError.invalid_persisted_session, s)
    else if leb s.max (length s.sessions)
    then (some RestoreError.session_limit_exceeded, s)
    else if has_session token s
    then (some RestoreError.duplicate_session, s)
    else (
      none,
      record s {
        sessions =
            insert token (record { csrf = csrf; expires_at = expires_at; done = s.channels })
              s.sessions;
        channels = suc s.channels;
      },
    )

pub remove_found : Bytes → Option BrowserSession → Store → Store
remove_found token none s = record s { login_attempts = delete token s.login_attempts }
remove_found token (some b) s = record s {
  sessions = delete token s.sessions;
  closed = b.done ∷ s.closed;
  login_attempts = delete token s.login_attempts;
}

unfoldable pub remove_session : Bytes → Store → Store
unfolding remove_found
remove_session token s = remove_found token (lookup token s.sessions) s

abbrev pub expired : ℕ → BrowserSession → Bool
expired now b = not (ltb now b.expires_at)

-- The first range of `pruneLocked`, over the sessions that there were when it began.
pub remove_expired : ℕ → List (Bytes × BrowserSession) → Store → List Bytes × Store
unfolding remove_session
remove_expired now [] s = ([], s)
remove_expired now ((token, b) ∷ m) s =
    let gone = remove_expired now m (remove_session token s) in
    let stays = remove_expired now m s in if expired now b then (token ∷ gone.0, gone.1) else stays

-- The second range: attempts of sessions that are not there.
pub keep_active :
    List (Bytes × BrowserSession) → List (Bytes × LoginAttempt) → List (Bytes × LoginAttempt)
keep_active active [] = []
keep_active active ((token, a) ∷ m) =
    let rest = keep_active active m in if has_key token active then (token, a) ∷ rest else rest

abbrev pub login_idle : ℕ → LoginAttempt → Bool
login_idle now a = not a.in_flight && not (ltb now a.window_end)

-- Attempts that are not in flight go until `n` are gone.
pub evict_logins : ℕ → List (Bytes × LoginAttempt) → List (Bytes × LoginAttempt)
evict_logins n [] = []
evict_logins zero (x ∷ m) = x ∷ m
evict_logins (suc n) ((k, a) ∷ m) =
    let stay = evict_logins (suc n) m in
    let gone = evict_logins n m in if a.in_flight then (k, a) ∷ stay else gone

pub trim_logins : ℕ → ℕ → List (Bytes × LoginAttempt) → List (Bytes × LoginAttempt)
unfolding evict_logins
trim_logins now max m =
    let live = keep (λ a. not (login_idle now a)) m in evict_logins (length live - max) live

-- The tokens that the persistence is told to delete, and the store.
unfoldable pub prune : (ℕ → ℕ) → Store → List Bytes × Store
unfolding remove_expired keep_active trim_logins
prune clock s =
    let removed = remove_expired (clock 0) s.sessions s in
    (
      removed.0,
      record removed.1 {
        access_attempts = trim_access (clock 1) removed.1.access_attempts;
        login_attempts =
            trim_logins (clock 2) removed.1.max
              (keep_active removed.1.sessions removed.1.login_attempts);
      },
    )
