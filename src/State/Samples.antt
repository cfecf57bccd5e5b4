-- ===== src/State/Samples.antt =====
-- A small installation: one node, one live selector, one tombstone, one account; runs and instances.
use kfadapter.Base.{ℕ, ◌≡◌, refl, true, false, [], ◌∷◌, none, some, replicate}
use kfadapter.Base.Bytes.{Bytes, codes}
use kfadapter.Base.Dict.{lookup}
use kfadapter.Base.Text.{utf8_valid, equal_fold, trim_space}
use kfadapter.State.Types.{
  effective_client_profile, authenticating, ready, unknown, udp_unknown, unset, Node, NodeRef,
  SessionSecrets, RuntimeSnapshot, no_account, ok, tunnel_eligible,
}
use kfadapter.State.Sessions.{
  no_session, sessions_valid, session_valid, valid_session_field, session_for, user_id,
}
use kfadapter.State.Snapshot.{
  validate_node, validate_runtime_snapshot, resolve_selector, session_usable, node_by_id,
}
use kfadapter.State.Manager.Pins.{}
use kfadapter.State.Manager.Leases.{}
use kfadapter.State.Manager.Setup.{Rollback, install_subscription_generation}
use kfadapter.State.Manager.Installation.{}
use kfadapter.State.Binding.{
  validate_subscription_generation, rotated_subscription_material, SubscriptionGeneration,
  matches_account_binding, account_binding_for, canonical_provider_user_id,
}
use kfadapter.State.Manager.{Manager}
use kfadapter.State.Manager.Admission.{TunnelPin, compact_pin}
use kfadapter.State.Manager.Publication.{commit}
use kfadapter.State.Manager.Trace.{}

abbrev pub sample_session : SessionSecrets
sample_session = record {
  user_id = codes "u1";
  login_token = codes "t";
  provider_token = codes "p";
  tunnel_password = codes "w";
  tunnel_method = codes "aes-256-cfb";
  provider_extension = codes "|p|x|o|u1|MAC|1";
}

abbrev pub sample_node : Node
sample_node = record {
  id = codes "n1";
  selector = codes "n_a";
  provider = codes "wifiin";
  client_profile = unset;
  host = codes "example.net";
  port = 443;
  name = codes "one";
  group = [];
  model = [];
  weight = 0;
  auto = false;
  eligible = true;
  excluded = false;
  health = unknown;
  udp_health = udp_unknown;
  tcp_rtt = 0;
  probed_at = 0;
}

abbrev pub live_ref : NodeRef
live_ref = record { node_id = codes "n1"; generation = 1; tombstoned = false; tombstone_until = 0 }

abbrev pub dead_ref : NodeRef
dead_ref = record { node_id = []; generation = 1; tombstoned = true; tombstone_until = 500 }

abbrev pub sample_snapshot : RuntimeSnapshot
sample_snapshot = record {
  generation = 7;
  created_at = 100;
  expires_at = 1000;
  account = no_account;
  sessions = record { ios_session = sample_session; windows_session = no_session };
  nodes = sample_node ∷ [];
  selectors = (codes "n_a", live_ref) ∷ (codes "n_b", dead_ref) ∷ [];
}

-- A stand-in for HMAC-SHA256 with its length.
abbrev pub sample_hmac : Bytes → Bytes → Bytes
sample_hmac key message = replicate 32 9

abbrev pub bound_subscription : SubscriptionGeneration
bound_subscription = record {
  generation = 1;
  selector_key = replicate 32 1;
  proxy_auth_key = replicate 32 2;
  account_binding = replicate 32 9;
  activated_at = 50;
}

abbrev pub idle_manager : Manager
idle_manager = record {
  runtime = none;
  state = authenticating;
  active = none;
  lease = 3;
  subscription = bound_subscription;
  account_binding_key = replicate 32 5;
  binding_key_configured = true;
}

abbrev pub at_200 : ℕ → ℕ
at_200 k = 200

pub sample_is_valid : validate_runtime_snapshot at_200 sample_snapshot ≡ none
unfolding validate_runtime_snapshot sessions_valid session_valid valid_session_field utf8_valid
    session_for validate_node effective_client_profile
sample_is_valid = refl

-- The sample committed on an idle manager: ready.
abbrev pub ready_manager : Manager
ready_manager = record idle_manager { runtime = some sample_snapshot; state = ready }

pub sample_commits : commit sample_hmac at_200 sample_snapshot idle_manager ≡ (ready_manager, none)
unfolding commit validate_runtime_snapshot sessions_valid session_valid valid_session_field
    utf8_valid session_for validate_node effective_client_profile tunnel_eligible equal_fold user_id
    matches_account_binding account_binding_for canonical_provider_user_id trim_space
sample_commits = refl

abbrev pub sample_pin : TunnelPin
sample_pin = record {
  session = sample_session;
  expires_at = 1000;
  node = sample_node;
  ref = live_ref;
}

pub sample_pins : compact_pin ready_manager (codes "n_a") 1 200 ≡ ok sample_pin
unfolding compact_pin session_usable sessions_valid session_valid valid_session_field utf8_valid
    session_for effective_client_profile resolve_selector lookup node_by_id
sample_pins = refl

-- Another account: a new binding, the next generation, two new keys.
abbrev pub next_subscription : SubscriptionGeneration
next_subscription = record {
  generation = 2;
  selector_key = replicate 32 3;
  proxy_auth_key = replicate 32 4;
  account_binding = replicate 32 9;
  activated_at = 60;
}

abbrev pub foreign_manager : Manager
foreign_manager = record idle_manager {
  subscription = record bound_subscription { account_binding = replicate 32 8 };
}

abbrev pub installation : Rollback
installation = record {
  candidate = next_subscription;
  previous = foreign_manager.subscription;
  fired = false;
}

pub next_installs :
    install_subscription_generation sample_hmac next_subscription (codes "u2") foreign_manager
    ≡ ok (record foreign_manager { subscription = next_subscription }, installation)
unfolding install_subscription_generation validate_subscription_generation matches_account_binding
    account_binding_for canonical_provider_user_id trim_space utf8_valid
    rotated_subscription_material
next_installs = refl
