-- ===== src/State/Persistent/Validation.antt =====
-- internal/state/types.go: what the durable state is checked for.
use kfadapter.Base.{
  ℕ, suc, ◌-◌, Bool, true, false, ◌&&◌, ◌||◌, not, List, [], ◌∷◌, Option, none, some, is_empty,
  length, leb, ltb, ◌==◌, if◌then◌else◌, get_or, take, all,
}
use kfadapter.Base.Bytes.{Bytes, bytes_eq, has_byte, codes}
use kfadapter.Base.Text.{utf8_valid, equal_fold, split}
use kfadapter.Base.Dict.{member}
use kfadapter.State.Types.{
  ClientProfile, ios, windows, Node, RuntimeSnapshot, Selectors, SessionSecrets, unknown,
  udp_unavailable, wifiin_provider,
}
use kfadapter.State.Sessions.{session_valid, session_eq, no_session, user_id}
use kfadapter.State.Snapshot.{validate_runtime_snapshot, validate_node}
use kfadapter.State.Binding.{validate_subscription_generation, sha256_size}
use kfadapter.Wifiin.Provider.{valid_provider_extension_for_profile}
use kfadapter.State.Persistent.{
  Link, Primitives, AccessTokenVerifier, Preferences, PersistedNode, LastGoodState, PersistentState,
  verifier_valid, matches_account,
}

-- Whether `validatePreferences` returns no error; fifteen minutes and a day in nanoseconds.
abbrev pub policy_valid : Option ℕ → Bool
policy_valid none = false
policy_valid (some d) = leb 900_000_000_000 d && leb d 86_400_000_000_000

abbrev pub exclusions_valid : List (Bytes × Bool) → Bool
exclusions_valid [] = true
exclusions_valid ((id, excluded) ∷ m) = not (is_empty id) && excluded && exclusions_valid m

unfoldable pub validate_preferences : Primitives → Preferences → Bool
validate_preferences x p =
    exclusions_valid p.excluded_node_ids
    && (is_empty p.refresh_policy || policy_valid (x.parse_duration p.refresh_policy))

abbrev pub lower_hex : ℕ → Bool
lower_hex c = (leb 48 c && leb c 57) || (leb 97 c && leb c 102)

unfoldable pub valid_installation_id : Bytes → Bool
valid_installation_id value = length value == 32 && all lower_hex value

unfoldable pub last_good_state_empty : LastGoodState → Bool
last_good_state_empty l =
    l.generation == 0
    && l.created_at == 0
    && is_empty l.nodes
    && is_empty l.rendered_subscription
    && l.fetched_generation == 0
    && l.fetched_at == 0
    && is_empty l.fetched_body_hash

-- The node that `validatePersistedNodes` hands to `ValidateNode`.
abbrev pub node_of : PersistedNode → Node
node_of n = record {
  id = n.id;
  selector = [];
  provider = n.provider;
  client_profile = ClientProfile.unset;
  host = n.host;
  port = n.port;
  name = [];
  group = [];
  model = [];
  weight = 0;
  auto = false;
  eligible = n.eligible;
  excluded = false;
  health = unknown;
  udp_health = udp_unavailable;
  tcp_rtt = 0;
  probed_at = 0;
}

abbrev pub check_persisted : List Bytes → List PersistedNode → Bool
check_persisted ids [] = true
check_persisted ids (n ∷ ns) =
    not (is_empty n.selector)
    && validate_node (node_of n)
    && not (member n.id ids)
    && check_persisted (n.id ∷ ids) ns

unfoldable pub validate_persisted_nodes : List PersistedNode → Bool
validate_persisted_nodes nodes =
    not (is_empty nodes) && leb (length nodes) 4096 && check_persisted [] nodes

abbrev pub eligible_count : (PersistedNode → Bool) → List PersistedNode → ℕ
eligible_count p [] = 0
eligible_count p (n ∷ ns) =
    let rest = eligible_count p ns in
    if n.eligible && equal_fold n.provider wifiin_provider && p n then suc rest else rest

abbrev pub has_password : Option (Bytes × Option Bytes) → Bool
has_password none = false
has_password (some (name, none)) = false
has_password (some (name, some password)) = not (is_empty name) && not (is_empty password)

abbrev pub link_valid : Bytes → Option Link → Bool
link_valid line none = false
link_valid line (some l) =
    bytes_eq l.string line
    && bytes_eq l.scheme (codes "socks5")
    && is_empty l.opaque
    && not (is_empty l.host)
    && is_empty l.path
    && is_empty l.raw_query
    && has_password l.user

abbrev pub line_valid : Primitives → Bytes → Bool
line_valid x line =
    not (is_empty line) && not (has_byte 13 line) && link_valid line (x.parse_url line)

-- The decoded body is text that ends in a line feed, with one link for each eligible node, or for each
-- that is not excluded.
abbrev pub body_valid : Primitives → Bytes → List PersistedNode → Option Bytes → Bool
body_valid x body nodes none = false
body_valid x body nodes (some text) =
    let lines = split 10 (take (length text - 1) text) in
    bytes_eq (x.encode text) body
    && utf8_valid text
    && not (is_empty text)
    && get_or text (length text - 1) 0 == 10
    && not (eligible_count (λ n. true) nodes == 0)
    && (length lines == eligible_count (λ n. true) nodes
        || length lines == eligible_count (λ n. not n.excluded) nodes)
    && all (line_valid x) lines

-- Ten megabytes at most.
unfoldable pub validate_rendered_subscription : Primitives → Bytes → List PersistedNode → Bool
validate_rendered_subscription x body nodes =
    not (is_empty body) && leb (length body) 10_485_760 && body_valid x body nodes (x.decode body)

abbrev pub agree : Bool → Bool → Bool
agree true b = b
agree false b = not b

unfoldable pub validate_last_good_state : Primitives → LastGoodState → ℕ → Bool
unfolding last_good_state_empty validate_persisted_nodes validate_rendered_subscription
validate_last_good_state x l active =
    let has_fetch = not (l.fetched_at == 0) in
    last_good_state_empty l
    || (l.generation == active
        && not (l.created_at == 0)
        && not (is_empty l.nodes)
        && not (is_empty l.rendered_subscription)
        && (is_empty l.fetched_body_hash || length l.fetched_body_hash == sha256_size)
        && agree has_fetch (length l.fetched_body_hash == sha256_size)
        && agree has_fetch (not (l.fetched_generation == 0))
        && not
            (has_fetch && (ltb l.generation l.fetched_generation || ltb l.fetched_at l.created_at))
        && validate_persisted_nodes l.nodes
        && validate_rendered_subscription x l.rendered_subscription l.nodes)

abbrev pub profile_name : ClientProfile → Bytes
profile_name ClientProfile.unset = []
profile_name ios = codes "ios"
profile_name windows = codes "windows"
profile_name (ClientProfile.other_profile s) = s

abbrev pub extension_matches : SessionSecrets → List Bytes → Bool
extension_matches s parts =
    length parts == 7
    && bytes_eq (get_or parts 1 []) s.provider_token
    && bytes_eq (get_or parts 4 []) s.user_id

-- For a profile that is one of the two.
unfoldable pub valid_persisted_session : ClientProfile → SessionSecrets → Bool
valid_persisted_session profile s =
    session_valid s
    && bytes_eq s.tunnel_method (codes "aes-256-cfb")
    && valid_provider_extension_for_profile (profile_name profile) s.provider_extension
    && extension_matches s (split 124 s.provider_extension)

abbrev pub refs_of_generation : ℕ → Selectors → Bool
refs_of_generation g [] = true
refs_of_generation g ((name, r) ∷ m) = r.generation == g && refs_of_generation g m

abbrev pub active_valid : Primitives → (ℕ → ℕ) → PersistentState → Option RuntimeSnapshot → Bool
active_valid x clock p none = true
active_valid x clock p (some s) =
    (elim (validate_runtime_snapshot clock s) [ none ↦ true | some e ↦ false ])
    && valid_persisted_session ios s.sessions.ios_session
    && matches_account x p (user_id s.sessions)
    && (session_eq s.sessions.windows_session no_session
        || valid_persisted_session windows s.sessions.windows_session)
    && refs_of_generation p.subscription.generation s.selectors

abbrev pub verifier_absent_or_valid : Option AccessTokenVerifier → Bool
verifier_absent_or_valid none = true
verifier_absent_or_valid (some v) = verifier_valid v

abbrev pub is_none {ℓ} : {A : Type ℓ} → Option A → Bool
is_none none = true
is_none (some a) = false

-- Whether `ValidatePersistentState` returns no error; `clock` is read by the snapshot's validation.
unfoldable pub validate_persistent_state : Primitives → (ℕ → ℕ) → PersistentState → Bool
validate_persistent_state x clock p =
    valid_installation_id p.installation_id
    && verifier_absent_or_valid p.access_token_verifier
    && validate_subscription_generation p.subscription
    && not (not (is_empty p.subscription.account_binding) && is_none p.access_token_verifier)
    && (if is_empty p.subscription.account_binding
        then last_good_state_empty p.last_good && is_none p.active_session
        else validate_last_good_state x p.last_good p.subscription.generation)
    && active_valid x clock p p.active_session
    && validate_preferences x p.preferences
