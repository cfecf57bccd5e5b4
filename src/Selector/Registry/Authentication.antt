-- ===== src/Selector/Registry/Authentication.antt =====
-- Which credentials authenticate, and what they resolve to.
use kfadapter.Base.{
  ℕ, ◌≤◌, ◌≡◌, true, false, [], ◌∷◌, ◌++◌, some, take, length, arith, length-take, Option-cases,
  inl, inr,
}
use kfadapter.Base.Bytes.{Bytes, codes, bytes_eq_refl, bytes_eq→eq}
use kfadapter.Base.Dict.{lookup}
use kfadapter.State.Types as Types
use kfadapter.State.Types.{Node, NodeRef, RuntimeSnapshot}
use kfadapter.State.Snapshot.{resolve_selector}
use kfadapter.State.Snapshot.Resolution.{resolve_selector-ok}
use kfadapter.Selector.Identity.{
  Primitives, ok, NodeIdentity, CanonicalIdentity, Credentials, selector_prefix, password_prefix,
  selector_bytes, password_bytes, password_for, derive, derive_from, derive_canonical, canonicalize,
  fingerprint, Result-cases,
}
use kfadapter.Selector.Registry.{
  Generation, load, credentials, credentials_of, credentials_from, authenticate_at,
  valid_credential, encoded_len, resolve, resolve_as, resolved,
}

-- What the registry relies on: a MAC of 32 bytes, and Base64 that decodes what it encoded, at the
-- documented length.
pub record IsLawful (p : Primitives) : Type 0 where
  pub mac_size : (key message : Bytes) → length (p.mac key message) ≡ 32
  pub encode_size : (raw : Bytes) → length (p.encode raw) ≡ encoded_len (length raw)
  pub decode-encode : (raw : Bytes) → p.decode (p.encode raw) ≡ some raw

encoded-valid_credential :
    (p : Primitives) (n : ℕ) (a b : ℕ) (key message : Bytes)
    → IsLawful p
    → n ≤ 32
    → valid_credential p (a ∷ b ∷ []) n ((a ∷ b ∷ []) ++ p.encode (take n (p.mac key message)))
      ≡ true
unfolding valid_credential
encoded-valid_credential p n a b key message l small =
    let size : length (take n (p.mac key message)) ≡ n =
      ground (arith, length-take n (p.mac key message), l.mac_size key message) in
    ground (
      arith,
      size,
      l.encode_size (take n (p.mac key message)),
      l.decode-encode (take n (p.mac key message)),
    )

pub derive_canonical-ok :
    (p : Primitives) (i : CanonicalIdentity) (selector_key proxy_auth_key : Bytes) (c : Credentials)
    → derive_canonical p i selector_key proxy_auth_key ≡ ok c
    → (c.selector
        ≡ selector_prefix ++ p.encode (take selector_bytes (p.mac selector_key (fingerprint i))))
      × (c.password ≡ password_for p proxy_auth_key c.selector)
unfolding derive_canonical
derive_canonical-ok p i selector_key proxy_auth_key c h = ground arith

password_for-valid_credential :
    (p : Primitives) (key selector : Bytes)
    → IsLawful p
    → valid_credential p password_prefix password_bytes (password_for p key selector) ≡ true
unfolding password_for
password_for-valid_credential p key selector l =
    encoded-valid_credential p password_bytes 0x70 0x5f key
      (codes "selector-password" ++ (0 ∷ selector)) l (omega arith)

authenticate_at-password_for :
    (p : Primitives) (r : Generation) (selector : Bytes)
    → IsLawful p
    → valid_credential p selector_prefix selector_bytes selector ≡ true
    → authenticate_at p r selector (password_for p r.proxy_auth_key selector) ≡ some r.generation
unfolding authenticate_at
authenticate_at-password_for p r selector l v = rw (
  v,
  password_for-valid_credential p r.proxy_auth_key selector l,
  bytes_eq_refl (password_for p r.proxy_auth_key selector),
)

derive_canonical-authenticates :
    (p : Primitives) (r : Generation) (i : CanonicalIdentity) (c : Credentials)
    → IsLawful p
    → derive_canonical p i r.selector_key r.proxy_auth_key ≡ ok c
    → authenticate_at p r c.selector c.password ≡ some r.generation
derive_canonical-authenticates p r i c l h =
    let (es, ep) = derive_canonical-ok p i r.selector_key r.proxy_auth_key c h in
    let v : valid_credential p selector_prefix selector_bytes c.selector ≡ true = rw es (
      encoded-valid_credential p selector_bytes 0x6e 0x5f r.selector_key (fingerprint i) l
        (omega arith)) in
    rw ep (authenticate_at-password_for p r c.selector l v)

-- The credentials that a registry hands out for a node authenticate with it, as its generation, where
-- the MAC has 32 bytes and Base64 decodes what it encoded.
pub credentials-authenticate_at :
    (p : Primitives) (r : Generation) (want : ℕ) (i : NodeIdentity) (c : Credentials)
    → IsLawful p
    → credentials p want i r ≡ some c
    → authenticate_at p r c.selector c.password ≡ some r.generation
unfolding credentials credentials_of credentials_from load derive derive_from
credentials-authenticate_at p r want i c l h = elim (Result-cases (canonicalize p i)) [
  | inl (j, e) ↦ elim (Result-cases (derive_canonical p j r.selector_key r.proxy_auth_key)) [
    | inl (d, e') ↦ ground (arith, derive_canonical-authenticates p r j d l e')
    | inr (x, e') ↦ absurd (ground arith)
  ]
  | inr (x, e) ↦ absurd (ground arith)
]

-- A selector has one password: whatever authenticates is that password, for the one generation.
pub authenticate_at-some :
    (p : Primitives) (r : Generation) (selector password : Bytes) (generation : ℕ)
    → authenticate_at p r selector password ≡ some generation
    → (generation ≡ r.generation) × (password ≡ password_for p r.proxy_auth_key selector)
unfolding authenticate_at
authenticate_at-some p r selector password generation h =
    ground (arith, bytes_eq→eq password (password_for p r.proxy_auth_key selector))

-- A resolution serves only the right password, and only a live reference that the snapshot holds for
-- the selector in the registry's own generation; the node is the one that the reference names.
pub resolve-ok :
    (p : Primitives) (r : Generation) (s : RuntimeSnapshot) (selector password : Bytes) (now : ℕ)
    (n : Node) (ref : NodeRef)
    → resolve p r s selector password now ≡ Types.ok (n, ref)
    → (password ≡ password_for p r.proxy_auth_key selector)
      × (lookup selector s.selectors ≡ some ref)
      × (ref.generation ≡ r.generation)
      × (ref.tombstoned ≡ false)
      × (n.id ≡ ref.node_id)
unfolding resolve resolve_as resolved
resolve-ok p r s selector password now n ref h =
    elim (Option-cases (authenticate_at p r selector password)) [
      | inl e ↦ absurd (ground arith)
      | inr (g, e) ↦ elim (Types.Result-cases (resolve_selector s selector now)) [
        | inl ((m, q), e') ↦ ground (
          arith,
          authenticate_at-some p r selector password g e,
          resolve_selector-ok s selector now m q e',
        )
        | inr (x, e') ↦ absurd (ground arith)
      ]
    ]
