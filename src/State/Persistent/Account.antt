-- ===== src/State/Persistent/Account.antt =====
-- internal/state/types.go: a state keeps its credentials for one account and replaces them for another.
use kfadapter.Base.{
  ℕ, zero, suc, ◌+◌, ◌-◌, ◌*◌, ◌^◌, ◌%◌, ◌/◌, ◌≤◌, ◌<◌, ◌≡◌, refl, Bool, true, false, ◌&&◌, ◌||◌,
  not, List, [], ◌∷◌, ◌++◌, Option, arith, Bool-cases, Option-cases, inl, inr, sym, ap, ◌∙◌, subst,
  none, some, is_empty, length, leb, ltb, ◌==◌, if◌then◌else◌, get_or, take, all,
}
use kfadapter.Base.Bytes.{Bytes, bytes_eq, has_byte, codes}
use kfadapter.Base.Text.{trim_space, utf8_valid, equal_fold, split}
use kfadapter.Base.Dict.{member}
use kfadapter.State.Types.{
  ClientProfile, ios, windows, Node, NodeRef, RuntimeSnapshot, Selectors, SessionSecrets, unknown,
  udp_unknown, udp_unavailable, wifiin_provider,
}
use kfadapter.State.Sessions.{session_valid, session_eq, no_session, user_id}
use kfadapter.State.Snapshot.{validate_runtime_snapshot, validate_node}
use kfadapter.State.Binding.{
  SubscriptionGeneration, validate_subscription_generation, account_binding_for,
  matches_account_binding, sha256_size,
}
use kfadapter.State.Manager.{u64}
use kfadapter.Wifiin.Provider.{valid_provider_extension_for_profile}
use kfadapter.State.Persistent.{
  Link, Primitives, AccessTokenVerifier, Preferences, PersistedNode, LastGoodState, no_last_good,
  PersistentState, Failure, Answer, done, fails, invalid_access_token, already_initialized,
  account_changed, no_randomness, Argon2idParameters, same_parameters, production_parameters,
  valid_access_token, verifier_valid, access_token_initialized, derive_account_binding,
  matches_account,
}
use kfadapter.Base.Bytes.{bytes_eq_refl}
use kfadapter.State.Persistent.Validation.{
  validate_persistent_state, validate_last_good_state, last_good_state_empty, valid_installation_id,
  validate_preferences, verifier_absent_or_valid, is_none, active_valid,
}
use kfadapter.Base.Bytes.{bytes_eq→eq}
pub mod Binds
pub mod Again
pub mod Validity

-- `newSubscriptionGeneration`, with the two keys that are drawn.
unfoldable pub new_subscription_generation :
    (ℕ → Option Bytes) → ℕ → ℕ → Answer SubscriptionGeneration
new_subscription_generation random number activated_at = elim (random 0) [
  | none ↦ fails no_randomness
  | some selector_key ↦ elim (random 1) [
    | none ↦ fails no_randomness
    | some proxy_key ↦ done (record {
      generation = number;
      selector_key = selector_key;
      proxy_auth_key = proxy_key;
      account_binding = [];
      activated_at = activated_at;
    })
  ]
]

abbrev pub hex_digit : ℕ → ℕ
hex_digit n = if ltb n 10 then 48 + n else 87 + n

-- `hex.EncodeToString`
abbrev pub hex : Bytes → Bytes
hex [] = []
hex (b ∷ bs) = hex_digit (b / 16) ∷ hex_digit (b % 16) ∷ hex bs

-- `NewPersistentState`, with the sixteen bytes that are drawn for the identifier.
unfoldable pub new_persistent_state : Option Bytes → (ℕ → Option Bytes) → ℕ → Answer PersistentState
unfolding new_subscription_generation
new_persistent_state none random now = fails no_randomness
new_persistent_state (some installation) random now =
    elim (new_subscription_generation random 1 now) [
      | fails e ↦ fails e
      | done g ↦ done (record {
        installation_id = hex installation;
        access_token_verifier = none;
        subscription = g;
        preferences = record {
          excluded_node_ids = [];
          reveal_endpoints = false;
          refresh_policy = [];
        };
        last_good = no_last_good;
        active_session = none;
      })
    ]

abbrev pub bound : Bytes → PersistentState → PersistentState
bound binding p = record p { subscription = record p.subscription { account_binding = binding } }

-- The state of another account.
abbrev pub rotated : Bytes → PersistentState → SubscriptionGeneration → PersistentState
rotated binding p next = record p {
  subscription = record next { account_binding = binding };
  last_good = no_last_good;
  active_session = none;
}

abbrev pub rotate :
    Bytes → PersistentState → Answer SubscriptionGeneration → Answer (Bool × PersistentState)
rotate binding p (done next) = done (true, rotated binding p next)
rotate binding p (fails e) = fails e

unfoldable pub bind_or_rotate :
    (ℕ → Option Bytes) → ℕ → PersistentState → Bytes → Answer (Bool × PersistentState)
unfolding new_subscription_generation
bind_or_rotate random now p binding =
    if is_empty p.subscription.account_binding
    then done (false, bound binding p)
    else if bytes_eq p.subscription.account_binding binding
    then done (false, p)
    else rotate binding p
        (new_subscription_generation random (u64 (suc p.subscription.generation)) now)

abbrev pub bind_derived :
    (ℕ → Option Bytes) → ℕ → PersistentState → Option Bytes → Answer (Bool × PersistentState)
bind_derived random now p none = fails account_changed
bind_derived random now p (some binding) = bind_or_rotate random now p binding

-- `EnsureSubscriptionAccountBinding`: whether the account changed, and the state after; an error leaves the
-- state as it was.
unfoldable pub ensure_subscription_account_binding :
    Primitives → (ℕ → Option Bytes) → Bytes → ℕ → PersistentState → Answer (Bool × PersistentState)
unfolding bind_or_rotate
ensure_subscription_account_binding x random user now p =
    if not (access_token_initialized p) || not (validate_subscription_generation p.subscription)
    then fails account_changed
    else bind_derived random now p (derive_account_binding x p user)
