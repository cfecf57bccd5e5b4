-- ===== src/State/Types.antt =====
-- internal/state/types.go: the data of the runtime view. A `time.Time` is its distance in nanoseconds
-- from Go's zero time, so 0 is the zero time; strings and byte slices are lists of bytes.
use kfadapter.Base.{
  ◌≡◌, refl, ◌⊎◌, inl, inr, ℕ, Bool, true, false, ◌&&◌, ◌||◌, not, List, [], is_empty, ◌==◌, ltb,
}
use kfadapter.Base.Bytes.{Bytes, codes}
use kfadapter.Base.Text.{equal_fold}

pub data ServiceState : Type 0 where
  signed_out authenticating syncing ready degraded expired error : ServiceState

-- The string type `Operation`: its two constants, and any other text.
pub data Operation : Type 0 where
  login refresh : Operation
  other_operation : Bytes → Operation

pub data Outcome : Type 0 where
  succeeded failed cancelled : Outcome

pub data NodeHealth : Type 0 where
  unknown healthy unhealthy unsupported : NodeHealth

pub data UdpHealth : Type 0 where
  udp_unavailable udp_unknown : UdpHealth

-- The string type `ClientProfile`: the empty text, its two constants, and any other text.
pub data ClientProfile : Type 0 where
  unset ios windows : ClientProfile
  other_profile : Bytes → ClientProfile

abbrev pub profile_valid : ClientProfile → Bool
profile_valid ios = true
profile_valid windows = true
profile_valid unset = false
profile_valid (other_profile s) = false

pub record Node : Type 0 where
  pub id : Bytes
  pub selector : Bytes
  pub provider : Bytes
  pub client_profile : ClientProfile
  pub host : Bytes
  pub port : ℕ
  pub name : Bytes
  pub group : Bytes
  pub model : Bytes
  pub weight : ℕ
  pub auto : Bool
  pub eligible : Bool
  pub excluded : Bool
  pub health : NodeHealth
  pub udp_health : UdpHealth
  pub tcp_rtt : ℕ
  pub probed_at : ℕ

abbrev effective_profile : ClientProfile → ClientProfile
effective_profile unset = ios
effective_profile ios = ios
effective_profile windows = windows
effective_profile (other_profile s) = other_profile s

unfoldable pub effective_client_profile : Node → ClientProfile
effective_client_profile n = effective_profile n.client_profile

abbrev pub wifiin_provider : Bytes
wifiin_provider = codes "WIFIIN"

unfoldable pub tunnel_eligible : Node → Bool
unfolding effective_client_profile
tunnel_eligible n =
    n.eligible
    && profile_valid (effective_client_profile n)
    && not (n.port == 0)
    && not (is_empty n.host)
    && equal_fold n.provider wifiin_provider

pub record NodeRef : Type 0 where
  pub node_id : Bytes
  pub generation : ℕ
  pub tombstoned : Bool
  pub tombstone_until : ℕ

unfoldable pub is_tombstoned : NodeRef → ℕ → Bool
is_tombstoned r now = r.tombstoned && (r.tombstone_until == 0 || ltb now r.tombstone_until)

pub record SessionSecrets : Type 0 where
  pub user_id : Bytes
  pub login_token : Bytes
  pub provider_token : Bytes
  pub tunnel_password : Bytes
  pub tunnel_method : Bytes
  pub provider_extension : Bytes

-- The two independent authorities.
pub record ClientSessions : Type 0 where
  pub ios_session : SessionSecrets
  pub windows_session : SessionSecrets

pub record AccountSummary : Type 0 where
  pub display : Bytes
  pub is_vip : Bool
  pub vip_ends_at : ℕ

abbrev pub no_account : AccountSummary
no_account = record { display = []; is_vip = false; vip_ends_at = 0 }

-- A Go map from selectors is an association list, read at its first entry for a key.
abbrev pub Selectors : Type 0
Selectors = List (Bytes × NodeRef)

pub record RuntimeSnapshot : Type 0 where
  pub generation : ℕ
  pub created_at : ℕ
  pub expires_at : ℕ
  pub account : AccountSummary
  pub sessions : ClientSessions
  pub nodes : List Node
  pub selectors : Selectors

-- The sentinel errors that the runtime view and the manager return.
pub data StateError : Type 0 where
  account_changed binding_key_already_configured invalid_snapshot invalid_transition : StateError
  operation_in_progress selector_unknown selector_tombstoned : StateError

pub data Result {ℓ} (A : Type ℓ) : Type ℓ where
  ok : A → Result A
  err : StateError → Result A

pub Result-cases {ℓ} :
    {A : Type ℓ} (r : Result A) → ((a : A) × (r ≡ ok a)) ⊎ ((e : StateError) × (r ≡ err e))
Result-cases (ok a) = inl (a, refl)
Result-cases (err e) = inr (e, refl)
