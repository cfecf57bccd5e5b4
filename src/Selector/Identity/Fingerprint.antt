-- ===== src/Selector/Identity/Fingerprint.antt =====
-- What a canonical identity is, and that its fingerprint tells it apart from any other.
use kfadapter.Base.{
  ℕ, zero, suc, ◌+◌, ◌-◌, ◌*◌, ◌/◌, ◌%◌, ◌^◌, ◌<◌, ◌≡◌, refl, sym, ◌∙◌, false, [], ◌∷◌, ◌++◌,
  Option, none, some, ltb, arith, ap, inl, inr, Bool-cases, Option-cases,
}
use kfadapter.Base.Bytes.{Bytes, codes, has_byte}
use kfadapter.Selector.Identity.{
  Primitives, ok, NodeIdentity, CanonicalIdentity, canonical_bytes, canonical_provider, name_of,
  host_of, bad_name, canonical_host, identity_of, canonicalize, decimal, fingerprint,
}

canonical_bytes-has_byte : (s t : Bytes) → canonical_bytes s ≡ some t → has_byte 0 t ≡ false
unfolding canonical_bytes
canonical_bytes-has_byte [] t h = ground arith
canonical_bytes-has_byte (b ∷ bs) t h = elim (Option-cases (canonical_bytes bs)) [
  | inl e ↦ ground arith
  | inr (r, e) ↦ ground (arith, canonical_bytes-has_byte bs r e)
]

canonical_bytes-canonical_bytes :
    (s t : Bytes) → canonical_bytes s ≡ some t → canonical_bytes t ≡ some t
unfolding canonical_bytes
canonical_bytes-canonical_bytes [] t h = ground arith
canonical_bytes-canonical_bytes (b ∷ bs) t h = elim (Option-cases (canonical_bytes bs)) [
  | inl e ↦ ground arith
  | inr (r, e) ↦ ground (arith, canonical_bytes-canonical_bytes bs r e)
]

-- Normalising a provider again changes nothing.
pub canonical_provider-canonical_provider :
    (s t : Bytes) → canonical_provider s ≡ some t → canonical_provider t ≡ some t
unfolding canonical_provider canonical_bytes
canonical_provider-canonical_provider [] t h = ground arith
canonical_provider-canonical_provider (b ∷ bs) [] h = elim (Option-cases (canonical_bytes bs)) [
  | inl e ↦ ground arith
  | inr (r, e) ↦ ground arith
]
canonical_provider-canonical_provider (b ∷ bs) (c ∷ cs) h =
    canonical_bytes-canonical_bytes (b ∷ bs) (c ∷ cs) h

canonical_provider-has_byte : (s t : Bytes) → canonical_provider s ≡ some t → has_byte 0 t ≡ false
unfolding canonical_provider
canonical_provider-has_byte [] t h = ground arith
canonical_provider-has_byte (b ∷ bs) t h = canonical_bytes-has_byte (b ∷ bs) t h

-- `netip.Addr.String` writes no NUL.
abbrev pub PlainAddresses : Primitives → Type 0
PlainAddresses p =
    (host address : Bytes) → p.parse_addr host ≡ some address → has_byte 0 address ≡ false

host_of-has_byte :
    (address ascii : Option Bytes) (lower : Bytes → Bytes) (t : Bytes)
    → ((a : Bytes) → address ≡ some a → has_byte 0 a ≡ false)
    → host_of address ascii lower ≡ some t
    → has_byte 0 t ≡ false
unfolding host_of name_of bad_name
host_of-has_byte (some a) ascii lower t plain h = ground (arith, plain a refl)
host_of-has_byte none none lower t plain h = ground arith
host_of-has_byte none (some ascii) lower t plain h = ground arith

canonical_host-has_byte :
    (p : Primitives) (host t : Bytes)
    → PlainAddresses p
    → canonical_host p host ≡ some t
    → has_byte 0 t ≡ false
unfolding canonical_host
canonical_host-has_byte p host t plain h = ground (
  arith,
  host_of-has_byte (p.parse_addr host) (p.to_ascii (p.to_lower host)) p.to_lower t (plain host),
)

-- No part of a canonical identity holds a NUL, and the port has 16 bits.
pub record IsPlain (i : CanonicalIdentity) : Type 0 where
  pub plain_id : has_byte 0 i.node_id ≡ false
  pub plain_provider : has_byte 0 i.provider ≡ false
  pub plain_host : has_byte 0 i.host ≡ false
  pub short_port : i.port < 65536

pub canonicalize-IsPlain :
    (p : Primitives) (i j : NodeIdentity) → PlainAddresses p → canonicalize p i ≡ ok j → IsPlain j
unfolding canonicalize identity_of
canonicalize-IsPlain p i j plain h = elim (Option-cases (canonical_provider i.provider)) [
  | inl e ↦ absurd (ground arith)
  | inr (provider, e) ↦ elim (Option-cases (canonical_host p i.host)) [
    | inl e' ↦ absurd (ground arith)
    | inr (host, e') ↦ record {
      plain_id = ground arith;
      plain_provider = ground (arith, canonical_provider-has_byte i.provider provider e);
      plain_host = ground (arith, canonical_host-has_byte p i.host host plain e');
      short_port = ground arith;
    }
  ]
]

-- What stands before the first NUL is determined.
pub cut_at_nul :
    (a b x y : Bytes)
    → has_byte 0 a ≡ false
    → has_byte 0 b ≡ false
    → a ++ (0 ∷ x) ≡ b ++ (0 ∷ y)
    → (a ≡ b) × (x ≡ y)
cut_at_nul [] [] x y na nb h = ground arith
cut_at_nul [] (d ∷ b) x y na nb h = absurd (ground arith)
cut_at_nul (c ∷ a) [] x y na nb h = absurd (ground arith)
cut_at_nul (c ∷ a) (d ∷ b) x y na nb h = ground (arith, cut_at_nul a b x y)

-- The number that decimal digits denote.
abbrev value : ℕ → Bytes → ℕ
value acc [] = acc
value acc (d ∷ ds) = value (acc * 10 + (d - 0x30)) ds

value-append : (acc : ℕ) (a b : Bytes) → value acc (a ++ b) ≡ value (value acc a) b
value-append acc [] b = refl
value-append acc (d ∷ a) b = value-append (acc * 10 + (d - 0x30)) a b

value-decimal : (k n : ℕ) → n < 10 ^ k → value 0 (decimal k n) ≡ n
unfolding decimal
value-decimal zero n h = ground arith
value-decimal (suc k) n h = elim (Bool-cases (ltb n 10)) [
  | inl e ↦ ground arith
  | inr e ↦
      ground (
        arith,
        value-append 0 (decimal k (n / 10)) ((0x30 + n % 10) ∷ []),
        value-decimal k (n / 10),
      )
]

-- Identities without a NUL in any part and with 16-bit ports are the same when their fingerprints are:
-- no node can take another's credentials by the way its fields run together.
pub fingerprint-injective :
    (i j : CanonicalIdentity) → IsPlain i → IsPlain j → fingerprint i ≡ fingerprint j → i ≡ j
unfolding fingerprint
fingerprint-injective i j pi pj h =
    let (eh, t1) = cut_at_nul (codes "credential") (codes "credential") _ _ refl refl h in
    let (ei, t2) = cut_at_nul i.node_id j.node_id _ _ pi.plain_id pj.plain_id t1 in
    let (ep, t3) = cut_at_nul i.provider j.provider _ _ pi.plain_provider pj.plain_provider t2 in
    let (eo, t4) = cut_at_nul i.host j.host _ _ pi.plain_host pj.plain_host t3 in
    let digits : i.port ≡ j.port =
      sym (value-decimal 5 i.port (omega (arith, pi.short_port)))
      ∙ ap (value 0) t4
      ∙ value-decimal 5 j.port (omega (arith, pj.short_port)) in
    cc
