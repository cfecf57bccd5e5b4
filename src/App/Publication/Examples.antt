-- ===== src/App/Publication/Examples.antt =====
-- A refresh through the runtime, of a manager that is ready and bound to another account.
use kfadapter.Base.{◌+◌, ◌≡◌, refl, true, false, [], ◌∷◌, none, some, replicate}
use kfadapter.Base.Bytes.{codes}
use kfadapter.State.Types.{RuntimeSnapshot}
use kfadapter.State.Samples.{sample_hmac, sample_session, sample_snapshot, ready_manager, at_200}
use kfadapter.State.Manager.{Manager, begin, release, transition}
use kfadapter.State.Manager.Publication.{commit}
use kfadapter.State.Types.{effective_client_profile, tunnel_eligible}
use kfadapter.State.Sessions.{
  sessions_valid, session_valid, valid_session_field, session_for, user_id,
}
use kfadapter.State.Snapshot.{validate_runtime_snapshot, validate_node}
use kfadapter.State.Binding.{
  matches_account_binding, account_binding_for, canonical_provider_user_id,
}
use kfadapter.Base.Text.{utf8_valid, equal_fold, trim_space}
use kfadapter.Selector.Identity.{canonicalize, canonical_provider, canonical_host, decimal}
use kfadapter.Kuaifan.Refresh.{
  LoginSession, Line, CompleteProfile, Builder, done, merge_profile_nodes,
  aggregate_account_display, session_secrets,
}
use kfadapter.Kuaifan.Refresh.Retry.{}
use kfadapter.Kuaifan.Refresh.Building.{
  make_snapshot, build_selectors, nodes_from_lines, node_id, node_payload, nodes_of,
  build_generations, add_selectors,
}
use kfadapter.Kuaifan.Refresh.Publication.{Refresher, Remote, refresh_account, login_account}
use kfadapter.Kuaifan.Refresh.Publication.Renewal.{Renewed}
use kfadapter.App.Publication.Renewal.{published_by, renewal-lem}
use kfadapter.App.Publication.{Runtime, commit_control_snapshot, prepare_runtime_commit}
use kfadapter.State.Persistent.Account.{ensure_subscription_account_binding}
use kfadapter.State.Manager.Setup.{install_subscription_generation}
use kfadapter.App.Coordinator.{install_generation}
use kfadapter.Selector.Registry.{make_generation}
use kfadapter.Selector.Build.{build_with_tombstones}
use kfadapter.Base.Dict.{insert}
use kfadapter.State.Manager.Installation.{Follows}
use kfadapter.State.Persistent.{
  access_token_initialized, derive_account_binding, PersistentState, no_last_good,
  production_parameters,
}
use kfadapter.Selector.Identity as Identity
use kfadapter.State.Binding.{
  SubscriptionGeneration, validate_subscription_generation, rotated_subscription_material,
}
use kfadapter.State.Samples.{bound_subscription}

-- A builder that keeps the nodes as they are, and clients that answer at once.
abbrev plain_builder : Builder
plain_builder = record {
  generations = 1 ∷ [];
  build = λ g nodes previous now. some (record { nodes = nodes; selectors = [] });
}

abbrev a_mac : Identity.Primitives
a_mac = record {
  mac = λ key message. replicate 32 7;
  encode = λ raw. raw;
  decode = λ text. some text;
  parse_addr = λ host. none;
  to_ascii = λ host. some host;
  to_lower = λ host. host;
}

-- Its own publication is not used: the runtime's takes its place.
abbrev refresher : Refresher
refresher = record {
  primitives = a_mac;
  codes = record { sum = λ raw. raw; encode = λ raw. raw };
  builder = plain_builder;
  commit_snapshot = λ s m. (m, none);
  lifetime = 1000;
  clock = at_200;
  rclock = at_200;
}

-- The subscription of another account, in the manager and in the store.
abbrev foreign_subscription : SubscriptionGeneration
foreign_subscription = record bound_subscription { account_binding = replicate 32 8 }

abbrev stored_state : PersistentState
stored_state = record {
  installation_id = replicate 32 97;
  access_token_verifier =
      some (record {
        parameters = production_parameters;
        salt = replicate 16 1;
        hash = replicate 32 9;
      });
  subscription = foreign_subscription;
  preferences = record { excluded_node_ids = []; reveal_endpoints = false; refresh_policy = [] };
  last_good = no_last_good;
  active_session = none;
}

abbrev a_runtime : Runtime
a_runtime = record {
  alive = true;
  primitives = record {
    hmac = sample_hmac;
    argon = λ token salt. replicate 32 9;
    encode = λ raw. raw;
    decode = λ text. none;
    parse_url = λ text. none;
    parse_duration = λ text. none;
  };
  selector_primitives = a_mac;
  coordinator = record {
    registry = record {
      generation = 1;
      selector_key = replicate 32 1;
      proxy_auth_key = replicate 32 2;
    };
    server = none;
  };
  stored = some stored_state;
  random = λ i. some (replicate 32 (20 + i));
  persists = λ g s. true;
  mclock = at_200;
  coordinator_now = 200;
  service_now = 200;
}

abbrev a_session : LoginSession
a_session = record {
  user_id = 1;
  token = codes "t";
  profile = record { is_vip = false; vip_ends_at = 0 };
}

abbrev a_line : Line
a_line = record {
  label = codes "one";
  host = codes "example.net";
  port = 443;
  provider = codes "wifiin";
  group_id = [];
  group_name = [];
  model = [];
  weight = 0;
  auto = false;
  eligible = true;
}

abbrev a_profile : LoginSession → CompleteProfile
a_profile s = record {
  session = s;
  authority = record {
    user_id = codes "1";
    order_id = codes "o";
    encrypt_key = codes "k";
    encrypt_type = codes "aes-256-cfb";
    provider_token = codes "p";
    provider_extension = codes "x";
  };
  lines = record { groups = []; lines = a_line ∷ [] };
}

abbrev remote : Remote
remote = record {
  rotate = λ s. done (a_session, a_session);
  log_in = done (a_session, a_session);
  fetch = λ s. done (a_profile s.0, a_profile s.1);
}

-- Both sessions, and an account to show.
abbrev two_sessions : RuntimeSnapshot
two_sessions = record sample_snapshot {
  account = record { display = codes "a"; is_vip = false; vip_ends_at = 0 };
  sessions = record { ios_session = sample_session; windows_session = sample_session };
}

abbrev two_sided : Manager
two_sided = record ready_manager {
  runtime = some two_sessions;
  subscription = foreign_subscription;
}

refreshed :
    let r = refresh_account (published_by a_runtime refresher) remote 200 two_sided in
    (r.1 ≡ none) × (r.0.subscription.generation ≡ 2)
unfolding refresh_account begin release transition commit validate_runtime_snapshot sessions_valid
    session_valid valid_session_field utf8_valid session_for validate_node effective_client_profile
    tunnel_eligible equal_fold user_id matches_account_binding account_binding_for
    canonical_provider_user_id trim_space canonicalize canonical_provider canonical_host decimal
    make_snapshot aggregate_account_display session_secrets merge_profile_nodes build_selectors
    nodes_from_lines node_id node_payload nodes_of build_generations add_selectors
    commit_control_snapshot prepare_runtime_commit ensure_subscription_account_binding
    access_token_initialized validate_subscription_generation derive_account_binding
    install_subscription_generation rotated_subscription_material install_generation make_generation
    build_with_tombstones Identity.derive_canonical insert
refreshed = (refl, refl)

renewal-lem_example :
    Renewed
      (published_by a_runtime refresher)
      sample_hmac
      at_200
      Follows
      two_sided
      (refresh_account (published_by a_runtime refresher) remote 200 two_sided)
    × Renewed
        (published_by a_runtime refresher)
        sample_hmac
        at_200
        Follows
        two_sided
        (login_account (published_by a_runtime refresher) remote (codes "a") two_sided)
renewal-lem_example = renewal-lem a_runtime refresher remote 200 (codes "a") two_sided
