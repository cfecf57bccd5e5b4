-- ===== src/State/Manager/Admission.antt =====
-- internal/state/manager.go: `CompactPin`, `SessionCurrentPin` and `SessionCurrent`, which admit tunnels.
use kfadapter.Base.{
  ℕ, Bool, false, ◌&&◌, ◌||◌, not, Option, none, some, is_empty, ◌==◌, if◌then◌else◌,
}
use kfadapter.Base.Bytes.{Bytes}
use kfadapter.State.Types.{
  Node, NodeRef, SessionSecrets, RuntimeSnapshot, selector_unknown, Result, ok, err,
  effective_client_profile,
}
use kfadapter.State.Sessions.{session_for, same_session_authority, same_client_sessions}
use kfadapter.State.Snapshot.{resolve_selector, session_usable}
use kfadapter.State.Binding.{}
use kfadapter.State.Manager.{Manager, serves}

pub record TunnelPin : Type 0 where
  pub session : SessionSecrets
  pub expires_at : ℕ
  pub node : Node
  pub ref : NodeRef

-- The end of `CompactPin`, once the selector is resolved.
unfoldable pub pin_of : RuntimeSnapshot → ℕ → Result (Node × NodeRef) → Result TunnelPin
pin_of s credential_generation (err e) = err e
pin_of s credential_generation (ok (node, ref)) =
    let found = session_for s.sessions (effective_client_profile node) in
    if not (ref.generation == credential_generation)
    then err selector_unknown
    else if not found.1
    then err selector_unknown
    else ok (record { session = found.0; expires_at = s.expires_at; node = node; ref = ref })

unfoldable pub pin_from : Option RuntimeSnapshot → Bytes → ℕ → ℕ → Result TunnelPin
unfolding pin_of
pin_from none selector credential_generation now = err selector_unknown
pin_from (some s) selector credential_generation now =
    if not (session_usable s now)
    then err selector_unknown
    else pin_of s credential_generation (resolve_selector s selector now)

unfoldable pub compact_pin : Manager → Bytes → ℕ → ℕ → Result TunnelPin
unfolding pin_from
compact_pin m selector credential_generation now =
    if is_empty selector || credential_generation == 0
    then err selector_unknown
    else if not (serves m.state)
    then err selector_unknown
    else pin_from m.runtime selector credential_generation now

unfoldable pub pin_matches : RuntimeSnapshot → TunnelPin → Bool
pin_matches s pin =
    let found = session_for s.sessions (effective_client_profile pin.node) in
    found.1 && same_session_authority found.0 pin.session

abbrev pub current_pin : Option RuntimeSnapshot → TunnelPin → ℕ → Bool
current_pin none pin now = false
current_pin (some s) pin now =
    s.expires_at == pin.expires_at && session_usable s now && pin_matches s pin

unfoldable pub session_current_pin : Manager → TunnelPin → ℕ → Bool
unfolding pin_matches
session_current_pin m pin now = serves m.state && current_pin m.runtime pin now

abbrev pub current_session : Option RuntimeSnapshot → RuntimeSnapshot → ℕ → Bool
current_session none pinned now = false
current_session (some s) pinned now =
    s.expires_at == pinned.expires_at
    && session_usable s now
    && same_client_sessions s.sessions pinned.sessions

unfoldable pub session_current : Manager → RuntimeSnapshot → ℕ → Bool
session_current m pinned now = serves m.state && current_session m.runtime pinned now
