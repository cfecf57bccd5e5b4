-- ===== src/State/Sessions.antt =====
-- internal/state/types.go: when session material is usable, and wiping it.
use kfadapter.Base.{
  ℕ, ◌+◌, ◌*◌, ◌≡◌, refl, Bool, true, false, ◌&&◌, ◌||◌, not, [], is_empty, length, leb, arith,
}
use kfadapter.Base.Bytes.{Bytes, bytes_eq, has_byte, bytes_eq_refl, bytes_eq→eq}
use kfadapter.Base.Text.{utf8_valid}
use kfadapter.State.Types.{
  ClientProfile, unset, ios, windows, other_profile, SessionSecrets, ClientSessions,
}

abbrev pub max_session_field_bytes : ℕ
max_session_field_bytes = 4096

abbrev pub max_provider_extension_bytes : ℕ
max_provider_extension_bytes = 3 * max_session_field_bytes + 128

unfoldable pub valid_session_field : Bytes → ℕ → Bool
valid_session_field value limit =
    not (is_empty value) && leb (length value) limit && utf8_valid value && not (has_byte 0 value)

unfoldable pub session_valid : SessionSecrets → Bool
session_valid s =
    valid_session_field s.user_id max_session_field_bytes
    && valid_session_field s.login_token max_session_field_bytes
    && valid_session_field s.provider_token max_session_field_bytes
    && valid_session_field s.tunnel_password max_session_field_bytes
    && valid_session_field s.tunnel_method max_session_field_bytes
    && valid_session_field s.provider_extension max_provider_extension_bytes

-- `SessionSecrets{}`, which is also what `Wipe` leaves.
abbrev pub no_session : SessionSecrets
no_session = record {
  user_id = [];
  login_token = [];
  provider_token = [];
  tunnel_password = [];
  tunnel_method = [];
  provider_extension = [];
}

-- Go's `==` on two session values.
abbrev pub session_eq : SessionSecrets → SessionSecrets → Bool
session_eq a b =
    bytes_eq a.user_id b.user_id
    && bytes_eq a.login_token b.login_token
    && bytes_eq a.provider_token b.provider_token
    && bytes_eq a.tunnel_password b.tunnel_password
    && bytes_eq a.tunnel_method b.tunnel_method
    && bytes_eq a.provider_extension b.provider_extension

unfoldable pub sessions_valid : ClientSessions → Bool
sessions_valid s =
    session_valid s.ios_session
    && (session_eq s.windows_session no_session
        || (session_valid s.windows_session
            && bytes_eq s.windows_session.user_id s.ios_session.user_id))

unfoldable pub user_id : ClientSessions → Bytes
user_id s = elim (sessions_valid s) [ true ↦ s.ios_session.user_id | false ↦ [] ]

-- `For`: the session of one profile, and whether it is usable.
unfoldable pub session_for : ClientSessions → ClientProfile → SessionSecrets × Bool
session_for s unset = (s.ios_session, session_valid s.ios_session)
session_for s ios = (s.ios_session, session_valid s.ios_session)
session_for s windows = (s.windows_session, session_valid s.windows_session)
session_for s (other_profile p) = (no_session, false)

abbrev pub wiped : ClientSessions
wiped = record { ios_session = no_session; windows_session = no_session }

-- `ClientSessions.Wipe`
abbrev pub wipe : ClientSessions → ClientSessions
wipe s = wiped

-- `sameSessionAuthority`; the bits of the six constant-time comparisons are multiplied by `&=`.
unfoldable pub same_session_authority : SessionSecrets → SessionSecrets → Bool
same_session_authority a b = session_eq a b

unfoldable pub same_client_sessions : ClientSessions → ClientSessions → Bool
unfolding same_session_authority
same_client_sessions a b =
    same_session_authority a.ios_session b.ios_session
    && same_session_authority a.windows_session b.windows_session

pub session_valid-no_session : session_valid no_session ≡ false
unfolding session_valid valid_session_field
session_valid-no_session = refl

pub sessions_valid-wiped : sessions_valid wiped ≡ false
unfolding sessions_valid
sessions_valid-wiped = ground (arith, session_valid-no_session)

pub same_session_authority_refl : (s : SessionSecrets) → same_session_authority s s ≡ true
unfolding same_session_authority
same_session_authority_refl s = ground (
  arith,
  bytes_eq_refl s.user_id,
  bytes_eq_refl s.login_token,
  bytes_eq_refl s.provider_token,
  bytes_eq_refl s.tunnel_password,
  bytes_eq_refl s.tunnel_method,
  bytes_eq_refl s.provider_extension,
)

-- Only equal sessions carry the same authority.
pub same_session_authority→eq : (a b : SessionSecrets) → same_session_authority a b ≡ true → a ≡ b
unfolding same_session_authority
same_session_authority→eq a b h = ground (
  arith,
  bytes_eq→eq a.user_id b.user_id,
  bytes_eq→eq a.login_token b.login_token,
  bytes_eq→eq a.provider_token b.provider_token,
  bytes_eq→eq a.tunnel_password b.tunnel_password,
  bytes_eq→eq a.tunnel_method b.tunnel_method,
  bytes_eq→eq a.provider_extension b.provider_extension,
)
