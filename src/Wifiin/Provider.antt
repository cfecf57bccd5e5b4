-- ===== src/Wifiin/Provider.antt =====
-- internal/kuaifan/wifiin/tcp.go: the provider extension, fields joined by `|`.
pub mod Canonical
use kfadapter.Base.{
  ℕ, ◌+◌, ◌*◌, ◌≤◌, ◌≡◌, refl, ap, sym, ◌∙◌, Bool, true, false, ◌&&◌, ◌||◌, not, List, [], ◌∷◌,
  ◌++◌, Option, none, some, is_empty, length, length-append, leb, ltb, ◌==◌, all, if◌then◌else◌,
  arith, inl, inr, Bool-cases, Option-cases,
}
use kfadapter.Base.Bytes.{Bytes, codes, bytes_eq, bytes_eq→eq, bytes_eq_refl, has_byte}
use kfadapter.Base.Text.{split, split-append, split_whole, join, join-split}

-- A profile's product, system and version.
pub record Identity : Type 0 where
  pub product : Bytes
  pub os_name : Bytes
  pub version : Bytes

abbrev pub ios_identity : Identity
ios_identity = record {
  product = codes "cc.fancast.major";
  os_name = codes "MAC";
  version = codes "1.0.46";
}

abbrev pub windows_identity : Identity
windows_identity = record {
  product = codes "com.wifiin.sdk.invpn.win";
  os_name = codes "WINDOWS";
  version = codes "4.3.30";
}

-- `providerExtensionIdentity`, on the profile's text.
unfoldable pub provider_extension_identity : Bytes → Option Identity
provider_extension_identity profile =
    if bytes_eq profile (codes "ios")
    then some ios_identity
    else if bytes_eq profile (codes "windows")
    then some windows_identity
    else none

abbrev pub max_provider_field_bytes : ℕ
max_provider_field_bytes = 4096

abbrev pub max_provider_extension_bytes : ℕ
max_provider_extension_bytes = 3 * max_provider_field_bytes + 128

abbrev pub bar : ℕ
bar = b'|'

-- A printable ASCII byte other than the separator.
abbrev pub is_field_byte : ℕ → Bool
is_field_byte b = not (ltb b 0x21 || ltb 0x7e b || b == bar)

-- `validProviderField`, and `validASCIIHost` with its own limit.
unfoldable pub valid_text : ℕ → Bytes → Bool
valid_text limit field = not (is_empty field) && leb (length field) limit && all is_field_byte field

abbrev pub valid_provider_field : Bytes → Bool
valid_provider_field = valid_text max_provider_field_bytes

abbrev pub joined : Identity → Bytes → Bytes → Bytes → Bytes
joined i provider_token order user =
    bar
    ∷ (provider_token
        ++ (bar
            ∷ (i.product
                ++ (bar ∷ (order ++ (bar ∷ (user ++ (bar ∷ (i.os_name ++ (bar ∷ i.version))))))))))

-- `ProviderExtensionForProfile`; none is `ErrInvalidProviderData`.
unfoldable pub provider_extension_for_profile : Bytes → Bytes → Bytes → Bytes → Option Bytes
unfolding provider_extension_identity
provider_extension_for_profile profile provider_token order user =
    if not (
      valid_provider_field provider_token
      && valid_provider_field order
      && valid_provider_field user)
    then none
    else (elim (provider_extension_identity profile) [
      | none ↦ none
      | some i ↦ some (joined i provider_token order user)
    ])

valid_parts : Identity → List Bytes → Bool
valid_parts i (lead ∷ provider_token ∷ product ∷ order ∷ user ∷ os_name ∷ version ∷ []) =
    is_empty lead
    && bytes_eq product i.product
    && bytes_eq os_name i.os_name
    && bytes_eq version i.version
    && valid_provider_field provider_token
    && valid_provider_field order
    && valid_provider_field user
valid_parts i _ = false

-- `ValidProviderExtensionForProfile`
unfoldable pub valid_provider_extension_for_profile : Bytes → Bytes → Bool
unfolding provider_extension_identity valid_parts
valid_provider_extension_for_profile profile extra =
    not (is_empty extra)
    && leb (length extra) max_provider_extension_bytes
    && (elim (provider_extension_identity profile) [
      | none ↦ false
      | some i ↦ valid_parts i (split bar extra)
    ])

-- `ValidProviderExtension`
unfoldable pub valid_provider_extension : Bytes → Bool
valid_provider_extension extra =
    valid_provider_extension_for_profile (codes "ios") extra
    || valid_provider_extension_for_profile (codes "windows") extra
