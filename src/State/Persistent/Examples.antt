-- ===== src/State/Persistent/Examples.antt =====
-- The theorems on the durable state, at a new state whose token is set and whose account is ensured.
use kfadapter.Base.{
  ℕ, suc, ◌≡◌, refl, Bool, true, false, [], Option, none, some, replicate, arith, length, ap, sym,
}
use kfadapter.Base.Bytes.{Bytes, codes}
use kfadapter.Base.Text.{trim_space, utf8_valid}
use kfadapter.State.Binding.{
  SubscriptionGeneration, account_binding_for, canonical_provider_user_id,
  validate_subscription_generation,
}
use kfadapter.State.Persistent.{
  Primitives, PersistentState, done, fails, already_initialized, no_last_good, valid_access_token,
  verifier_valid, derive_account_binding, matches_account,
}
use kfadapter.State.Persistent.Validation.{
  validate_persistent_state, valid_installation_id, last_good_state_empty, validate_preferences,
  validate_last_good_state,
}
use kfadapter.State.Persistent.Token.{
  new_access_token_verifier, set_access_token, verify_access_token, set_verifier,
  set_access_token-once,
}
use kfadapter.State.Persistent.Account.{ensure_subscription_account_binding, bound, rotated}
use kfadapter.State.Persistent.Account.Binds.{KeySizes}
use kfadapter.State.Persistent.Account.Again.{ensure-again}
use kfadapter.State.Persistent.Account.Validity.{Succession, ensure-valid}

-- Codes that are always the same, and nothing that decodes.
abbrev flat : Primitives
flat = record {
  hmac = λ key message. replicate 32 7;
  argon = λ token salt. replicate 32 9;
  encode = λ raw. raw;
  decode = λ text. none;
  parse_url = λ text. none;
  parse_duration = λ text. none;
}

abbrev a_salt : Option Bytes
a_salt = some (replicate 16 1)

abbrev a_token : Bytes
a_token = codes " 0123456789abcdef"

abbrev new_state : PersistentState
new_state = record {
  installation_id = replicate 32 97;
  access_token_verifier = none;
  subscription = record {
    generation = 1;
    selector_key = replicate 32 2;
    proxy_auth_key = replicate 32 3;
    account_binding = [];
    activated_at = 5;
  };
  preferences = record { excluded_node_ids = []; reveal_endpoints = false; refresh_policy = [] };
  last_good = no_last_good;
  active_session = none;
}

abbrev claimed_state : PersistentState
claimed_state = record new_state {
  access_token_verifier = some (set_verifier flat a_token (replicate 16 1));
}

set_access_token-once_example :
    (new_state.access_token_verifier ≡ none)
    × (verify_access_token flat claimed_state (codes "0123456789abcdef ") ≡ true)
    × (set_access_token flat a_salt (codes "another token here") claimed_state
        ≡ fails already_initialized)
    × (record claimed_state { access_token_verifier = none } ≡ new_state)
unfolding set_access_token new_access_token_verifier valid_access_token trim_space utf8_valid
set_access_token-once_example =
    set_access_token-once flat a_salt a_salt a_token (codes "0123456789abcdef ")
      (codes "another token here") new_state claimed_state
      (record { argon_size = λ token salt. refl; salt_size = λ salt e. ground (arith, e) }) refl
      refl

abbrev draws : ℕ → Option Bytes
draws i = some (replicate 32 i)

abbrev a_code : Bytes
a_code = replicate 32 7

abbrev bound_state : PersistentState
bound_state = bound a_code claimed_state

abbrev first_binding : Bool × PersistentState
first_binding = (false, bound_state)

some_value : Bytes → Option Bytes → Bytes
some_value d none = d
some_value d (some a) = a

drawn_size : (i : ℕ) (key : Bytes) → draws i ≡ some key → length key ≡ 32
unfolding some_value
drawn_size i key e = ap (λ o. length (some_value (replicate 32 0) o)) (sym e)

flat-KeySizes : KeySizes flat draws
flat-KeySizes = record { hmac_size = λ key message. refl; key_size = drawn_size }

bound_once :
    ensure_subscription_account_binding flat draws (codes "u1") 9 claimed_state ≡ done first_binding
unfolding ensure_subscription_account_binding derive_account_binding
    validate_subscription_generation account_binding_for canonical_provider_user_id trim_space
    utf8_valid
bound_once = refl

new_state_valid : validate_persistent_state flat (λ i. 9) claimed_state ≡ true
unfolding validate_persistent_state validate_subscription_generation verifier_valid
    valid_installation_id last_good_state_empty validate_preferences
new_state_valid = refl

ensure-again_example :
    (matches_account flat bound_state (codes "u1") ≡ true)
    × (ensure_subscription_account_binding flat draws (codes "u1") 20 bound_state
        ≡ done first_binding)
ensure-again_example =
    ensure-again flat draws (codes "u1") 9 claimed_state first_binding draws 20 flat-KeySizes
      (omega arith) (omega arith) bound_once

-- The state of another account, with the keys that are drawn for the next one.
abbrev foreign_state : PersistentState
foreign_state = bound (replicate 32 8) claimed_state

abbrev next_of_foreign : SubscriptionGeneration
next_of_foreign = record {
  generation = suc foreign_state.subscription.generation;
  selector_key = replicate 32 0;
  proxy_auth_key = replicate 32 1;
  account_binding = [];
  activated_at = 9;
}

abbrev taken_over : Bool × PersistentState
taken_over = (true, rotated a_code foreign_state next_of_foreign)

taken_over_once :
    ensure_subscription_account_binding flat draws (codes "u1") 9 foreign_state ≡ done taken_over
unfolding ensure_subscription_account_binding derive_account_binding
    validate_subscription_generation account_binding_for canonical_provider_user_id trim_space
    utf8_valid
taken_over_once = refl

foreign_state_valid : validate_persistent_state flat (λ i. 9) foreign_state ≡ true
unfolding validate_persistent_state validate_subscription_generation verifier_valid
    valid_installation_id last_good_state_empty validate_preferences validate_last_good_state
foreign_state_valid = refl

ensure-valid_example :
    (validate_persistent_state flat (λ i. 9) taken_over.1 ≡ true)
    × (derive_account_binding flat foreign_state (codes "u1") ≡ some a_code)
    × Succession flat draws (codes "u1") foreign_state true taken_over.1
ensure-valid_example =
    ensure-valid flat (λ i. 9) draws (codes "u1") 9 foreign_state taken_over flat-KeySizes
      (omega arith) (omega arith) foreign_state_valid taken_over_once
