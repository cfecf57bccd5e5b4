-- ===== src/State/Persistent.antt =====
-- internal/state/types.go: the durable state, the verifier of the access token, and what binds the
-- state to an account. Argon2id, HMAC-SHA256, Base64, `url.Parse` and `time.ParseDuration` are
-- arguments.
use kfadapter.Base.{
  ℕ, zero, suc, ◌+◌, ◌-◌, ◌*◌, ◌^◌, ◌%◌, ◌≤◌, ◌<◌, ◌≡◌, refl, Bool, true, false, ◌&&◌, ◌||◌, not,
  List, [], ◌∷◌, ◌++◌, Option, none, some, is_empty, length, leb, ltb, ◌==◌, if◌then◌else◌, get_or,
  take, all,
}
use kfadapter.Base.Bytes.{Bytes, bytes_eq, has_byte, codes}
use kfadapter.Base.Text.{trim_space, utf8_valid, equal_fold, split}
use kfadapter.Base.Dict.{member}
use kfadapter.State.Types.{
  ClientProfile, ios, windows, Node, NodeRef, RuntimeSnapshot, Selectors, SessionSecrets, unknown,
  udp_unknown, udp_unavailable, wifiin_provider,
}
use kfadapter.State.Sessions.{session_valid, session_eq, no_session, user_id}
use kfadapter.State.Snapshot.{validate_runtime_snapshot, validate_node}
use kfadapter.State.Binding.{
  SubscriptionGeneration, validate_subscription_generation, account_binding_for,
  matches_account_binding, sha256_size,
}
use kfadapter.State.Manager.{u64}
use kfadapter.Wifiin.Provider.{valid_provider_extension_for_profile}
pub mod Validation
pub mod Token
pub mod Account
mod Examples

-- A parsed link: the parts that are read, and its text again.
pub record Link : Type 0 where
  pub scheme : Bytes
  pub opaque : Bytes
  pub host : Bytes
  pub path : Bytes
  pub raw_query : Bytes
  pub user : Option (Bytes × Option Bytes)
  pub string : Bytes

-- `hmac key message`; `argon token salt` at the production parameters; a duration in nanoseconds, none
-- where it is not one or is negative.
pub record Primitives : Type 0 where
  pub hmac : Bytes → Bytes → Bytes
  pub argon : Bytes → Bytes → Bytes
  pub encode : Bytes → Bytes
  pub decode : Bytes → Option Bytes
  pub parse_url : Bytes → Option Link
  pub parse_duration : Bytes → Option ℕ

pub record Argon2idParameters : Type 0 where
  pub memory_kib : ℕ
  pub iterations : ℕ
  pub parallelism : ℕ

abbrev pub production_parameters : Argon2idParameters
production_parameters = record { memory_kib = 65_536; iterations = 3; parallelism = 1 }

pub record AccessTokenVerifier : Type 0 where
  pub parameters : Argon2idParameters
  pub salt : Bytes
  pub hash : Bytes

pub record Preferences : Type 0 where
  pub excluded_node_ids : List (Bytes × Bool)
  pub reveal_endpoints : Bool
  pub refresh_policy : Bytes

pub record PersistedNode : Type 0 where
  pub id : Bytes
  pub selector : Bytes
  pub provider : Bytes
  pub host : Bytes
  pub port : ℕ
  pub name : Bytes
  pub group : Bytes
  pub eligible : Bool
  pub excluded : Bool

pub record LastGoodState : Type 0 where
  pub generation : ℕ
  pub created_at : ℕ
  pub nodes : List PersistedNode
  pub rendered_subscription : Bytes
  pub fetched_generation : ℕ
  pub fetched_at : ℕ
  pub fetched_body_hash : Bytes

abbrev pub no_last_good : LastGoodState
no_last_good = record {
  generation = 0;
  created_at = 0;
  nodes = [];
  rendered_subscription = [];
  fetched_generation = 0;
  fetched_at = 0;
  fetched_body_hash = [];
}

pub record PersistentState : Type 0 where
  pub installation_id : Bytes
  pub access_token_verifier : Option AccessTokenVerifier
  pub subscription : SubscriptionGeneration
  pub preferences : Preferences
  pub last_good : LastGoodState
  pub active_session : Option RuntimeSnapshot

-- `errors.New` and the sentinels that these functions return.
pub data Failure : Type 0 where
  invalid_access_token already_initialized account_changed no_randomness : Failure

pub data Answer {ℓ} (A : Type ℓ) : Type ℓ where
  done : A → Answer A
  fails : Failure → Answer A

abbrev pub same_parameters : Argon2idParameters → Argon2idParameters → Bool
same_parameters a b =
    a.memory_kib == b.memory_kib && a.iterations == b.iterations && a.parallelism == b.parallelism

-- `validAccessToken`: 16 to 128 bytes of text, trimmed.
unfoldable pub valid_access_token : Bytes → Bool
valid_access_token token =
    let t = trim_space token in utf8_valid t && leb 16 (length t) && leb (length t) 128

-- Whether `validateAccessTokenVerifier` returns no error.
unfoldable pub verifier_valid : AccessTokenVerifier → Bool
verifier_valid v =
    same_parameters v.parameters production_parameters && length v.salt == 16 && length v.hash == 32

unfoldable pub access_token_initialized : PersistentState → Bool
unfolding verifier_valid
access_token_initialized p = elim p.access_token_verifier [
  | none ↦ false
  | some v ↦ verifier_valid v
]

unfoldable pub derive_account_binding : Primitives → PersistentState → Bytes → Option Bytes
unfolding access_token_initialized
derive_account_binding x p user = elim p.access_token_verifier [
  | none ↦ none
  | some v ↦ if verifier_valid v then account_binding_for x.hmac v.hash user else none
]

unfoldable pub matches_account : Primitives → PersistentState → Bytes → Bool
matches_account x p user = elim p.access_token_verifier [
  | none ↦ false
  | some v ↦
      verifier_valid v && matches_account_binding x.hmac p.subscription.account_binding v.hash user
]
