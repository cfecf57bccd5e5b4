-- ===== src/Selector/Identity.antt =====
-- internal/selector/credentials.go: node identities in normal form, their fingerprints, and the
-- credentials derived from them. HMAC-SHA256, Base64, `netip`, IDNA and the case tables of
-- `strings.ToLower` are the fields of `Primitives`.
use kfadapter.Base.{
  ℕ, zero, suc, ◌+◌, ◌-◌, ◌*◌, ◌/◌, ◌%◌, ◌≤◌, ◌<◌, ◌≡◌, ◌⊎◌, refl, Bool, true, false, ◌&&◌, ◌||◌,
  not, List, [], ◌∷◌, ◌++◌, Option, none, some, is_empty, take, drop, length, ltb, leb, ◌==◌,
  if◌then◌else◌, arith, any, ap, inl, inr, Bool-cases,
}
use kfadapter.Base.Bytes.{Bytes, codes, has_byte, bytes_eq}
pub mod Fingerprint

pub record Primitives : Type 0 where
  pub mac : Bytes → Bytes → Bytes
  pub encode : Bytes → Bytes
  pub decode : Bytes → Option Bytes
  pub parse_addr : Bytes → Option Bytes  -- the canonical text of an address
  pub to_ascii : Bytes → Option Bytes
  pub to_lower : Bytes → Bytes

pub data SelectorError : Type 0 where
  invalid_identity invalid_key unknown_generation duplicate_node_id too_many_nodes
        too_many_selectors :
      SelectorError

pub data Result {ℓ} (A : Type ℓ) : Type ℓ where
  ok : A → Result A
  err : SelectorError → Result A

pub Result-cases {ℓ} :
    {A : Type ℓ} (r : Result A) → ((a : A) × (r ≡ ok a)) ⊎ ((e : SelectorError) × (r ≡ err e))
Result-cases (ok a) = inl (a, refl)
Result-cases (err e) = inr (e, refl)

pub record NodeIdentity : Type 0 where
  pub node_id : Bytes
  pub provider : Bytes
  pub host : Bytes
  pub port : ℕ

-- `CanonicalIdentity` has the same fields, the port an unsigned 16-bit number.
abbrev pub CanonicalIdentity : Type 0
CanonicalIdentity = NodeIdentity

-- A byte of the provider, in upper case; `none` is the error.
abbrev pub canonical_byte : ℕ → Option ℕ
canonical_byte b =
    if ltb 0x7f b || b == 0 || leb b 0x20 || b == 0x7f
    then none
    else some (if leb 0x61 b && leb b 0x7a then b - 0x20 else b)

abbrev pub cons_byte : Option ℕ → Option Bytes → Option Bytes
cons_byte none rest = none
cons_byte (some b) none = none
cons_byte (some b) (some bs) = some (b ∷ bs)

canonical_bytes : Bytes → Option Bytes
canonical_bytes [] = some []
canonical_bytes (b ∷ bs) = cons_byte (canonical_byte b) (canonical_bytes bs)

unfoldable pub canonical_provider : Bytes → Option Bytes
unfolding canonical_bytes
canonical_provider [] = none
canonical_provider (b ∷ bs) = canonical_bytes (b ∷ bs)

-- `strings.TrimSuffix(s, ".")`
abbrev pub trim_dot : Bytes → Bytes
trim_dot [] = []
trim_dot (c ∷ []) = if c == 0x2e then [] else c ∷ []
trim_dot (c ∷ d ∷ s) = c ∷ trim_dot (d ∷ s)

-- `strings.ContainsAny(ascii, "\x00/\\@")` or the empty name.
bad_name : Bytes → Bool
bad_name s = is_empty s || has_byte 0 s || has_byte 0x2f s || has_byte 0x5c s || has_byte 0x40 s

name_of : Option Bytes → (Bytes → Bytes) → Option Bytes
unfolding bad_name
name_of none to_lower = none
name_of (some ascii) to_lower =
    let name = trim_dot (to_lower ascii) in if bad_name name then none else some name

host_of : Option Bytes → Option Bytes → (Bytes → Bytes) → Option Bytes
unfolding name_of
host_of (some address) ascii to_lower = some address
host_of none ascii to_lower = name_of ascii to_lower

-- `fmt.Sprintf("%d", n)` for a number below 10 ^ k.
unfoldable pub decimal : ℕ → ℕ → Bytes
decimal zero n = []
decimal (suc k) n =
    let rest = decimal k (n / 10) in
    if ltb n 10 then (0x30 + n) ∷ [] else rest ++ ((0x30 + n % 10) ∷ [])

-- The five digits are enough for a port.
unfoldable pub fingerprint : CanonicalIdentity → Bytes
fingerprint i =
    codes "credential"
    ++ (0 ∷ (i.node_id ++ (0 ∷ (i.provider ++ (0 ∷ (i.host ++ (0 ∷ decimal 5 i.port)))))))

pub record Credentials : Type 0 where
  pub selector : Bytes
  pub password : Bytes

abbrev pub key_size : ℕ
key_size = 32

abbrev pub selector_bytes : ℕ
selector_bytes = 12

abbrev pub password_bytes : ℕ
password_bytes = 18

abbrev pub selector_prefix : Bytes
selector_prefix = codes "n_"

abbrev pub password_prefix : Bytes
password_prefix = codes "p_"

module _ (p : Primitives) where
  unfoldable pub canonical_host : Bytes → Option Bytes
  unfolding host_of
  canonical_host host =
      if is_empty host || has_byte 0 host
      then none
      else host_of (p.parse_addr host) (p.to_ascii (p.to_lower host)) p.to_lower

  identity_of : NodeIdentity → Option Bytes → Option Bytes → Result CanonicalIdentity
  identity_of i none host = err invalid_identity
  identity_of i (some provider) none = err invalid_identity
  identity_of i (some provider) (some host) =
      if ltb i.port 1 || ltb 65535 i.port
      then err invalid_identity
      else ok (record { node_id = i.node_id; provider = provider; host = host; port = i.port })

  unfoldable pub canonicalize : NodeIdentity → Result CanonicalIdentity
  unfolding identity_of
  canonicalize i =
      if ltb 256 (length i.node_id) || has_byte 0 i.node_id
      then err invalid_identity
      else identity_of i (canonical_provider i.provider) (canonical_host i.host)

  -- The password that goes with a selector.
  unfoldable pub password_for : Bytes → Bytes → Bytes
  password_for proxy_auth_key selector =
      password_prefix
      ++ p.encode
          (take password_bytes (p.mac proxy_auth_key (codes "selector-password" ++ (0 ∷ selector))))

  unfoldable pub derive_canonical : CanonicalIdentity → Bytes → Bytes → Result Credentials
  unfolding fingerprint password_for
  derive_canonical i selector_key proxy_auth_key =
      if is_empty i.node_id
      then err invalid_identity
      else if not (length selector_key == key_size) || not (length proxy_auth_key == key_size)
      then err invalid_key
      else (let selector =
            selector_prefix
            ++ p.encode (take selector_bytes (p.mac selector_key (fingerprint i))) in
          ok (record { selector = selector; password = password_for proxy_auth_key selector }))

  unfoldable pub derive_from : Result CanonicalIdentity → Bytes → Bytes → Result Credentials
  derive_from (err e) selector_key proxy_auth_key = err e
  derive_from (ok i) selector_key proxy_auth_key = derive_canonical i selector_key proxy_auth_key

  unfoldable pub derive : NodeIdentity → Bytes → Bytes → Result Credentials
  unfolding derive_from
  derive i selector_key proxy_auth_key = derive_from (canonicalize i) selector_key proxy_auth_key
