-- ===== src/Selector/Registry.antt =====
-- internal/selector/credentials.go: the registry of one credential generation, and authentication.
use kfadapter.Base.{
  ℕ, zero, suc, ◌+◌, ◌*◌, ◌/◌, ◌≤◌, ◌<◌, ◌≡◌, refl, Bool, true, false, ◌&&◌, ◌||◌, not, List, [],
  ◌∷◌, ◌++◌, Option, none, some, is_empty, take, drop, length, ltb, leb, ◌==◌, if◌then◌else◌, arith,
}
use kfadapter.Base.Bytes.{Bytes, codes, bytes_eq}
use kfadapter.State.Types as Types
use kfadapter.State.Types.{Node, NodeRef, RuntimeSnapshot, StateError, selector_unknown}
use kfadapter.State.Snapshot.{resolve_selector}
use kfadapter.Selector.Identity.{
  Primitives, Result, ok, err, NodeIdentity, Credentials, selector_prefix, password_prefix,
  selector_bytes, password_bytes, key_size, password_for, derive, invalid_key,
}
pub mod Authentication

-- A `Registry` holds one generation.
pub record Generation : Type 0 where
  pub generation : ℕ
  pub selector_key : Bytes
  pub proxy_auth_key : Bytes

-- `NewRegistry`: the arguments are the fields of the persisted generation.
unfoldable pub make_generation : ℕ → Bytes → Bytes → Result Generation
make_generation generation selector_key proxy_auth_key =
    if generation == 0
      || not (length selector_key == key_size)
      || not (length proxy_auth_key == key_size)
    then err invalid_key
    else ok (record {
      generation = generation;
      selector_key = selector_key;
      proxy_auth_key = proxy_auth_key;
    })

unfoldable pub load : ℕ → Generation → Option Generation
load want r = if not (want == 0) && not (r.generation == want) then none else some r

-- `base64.RawURLEncoding.EncodedLen`
abbrev pub encoded_len : ℕ → ℕ
encoded_len n = (n * 8 + 5) / 6

abbrev pub decodes_to : ℕ → Option Bytes → Bool
decodes_to n none = false
decodes_to n (some raw) = length raw == n

-- `validSelector` and `validPassword`: the prefix, and as many bytes in Base64.
unfoldable pub valid_credential : Primitives → Bytes → ℕ → Bytes → Bool
valid_credential p prefix n text =
    length text == length prefix + encoded_len n
    && bytes_eq (take (length prefix) text) prefix
    && decodes_to n (p.decode (drop (length prefix) text))

module _ (p : Primitives) where
  credentials_from : Result Credentials → Option Credentials
  credentials_from (err e) = none
  credentials_from (ok c) = some c

  credentials_of : Option Generation → NodeIdentity → Option Credentials
  unfolding credentials_from
  credentials_of none i = none
  credentials_of (some keys) i = credentials_from (derive p i keys.selector_key keys.proxy_auth_key)

  unfoldable pub credentials : ℕ → NodeIdentity → Generation → Option Credentials
  unfolding load credentials_of
  credentials want i r = credentials_of (load want r) i

  -- `Authenticate` and `AuthenticateAt`; `none` is the answer `(0, false)`.
  unfoldable pub authenticate_at : Generation → Bytes → Bytes → Option ℕ
  unfolding valid_credential password_for
  authenticate_at r selector password =
      if not (valid_credential p selector_prefix selector_bytes selector)
        || not (valid_credential p password_prefix password_bytes password)
      then none
      else if bytes_eq password (password_for p r.proxy_auth_key selector)
      then some r.generation
      else none

  resolved : ℕ → Types.Result (Node × NodeRef) → Types.Result (Node × NodeRef)
  resolved generation (Types.err e) = Types.err selector_unknown
  resolved generation (Types.ok (n, ref)) =
      if ref.generation == generation then Types.ok (n, ref) else Types.err selector_unknown

  resolve_as : Option ℕ → RuntimeSnapshot → Bytes → ℕ → Types.Result (Node × NodeRef)
  unfolding resolved
  resolve_as none s selector now = Types.err selector_unknown
  resolve_as (some generation) s selector now =
      resolved generation (resolve_selector s selector now)

  unfoldable pub resolve :
      Generation → RuntimeSnapshot → Bytes → Bytes → ℕ → Types.Result (Node × NodeRef)
  unfolding resolve_as
  resolve r s selector password now =
      resolve_as (authenticate_at r selector password) s selector now
