-- ===== src/Wifiin/Provider/Canonical.antt =====
-- The extension is canonical: what is built is accepted, and what is accepted was built.
use kfadapter.Base.{
  ℕ, ◌+◌, ◌≤◌, ◌≡◌, refl, ap, sym, ◌∙◌, true, false, ◌&&◌, List, [], ◌∷◌, some, length,
  length-append, all, arith, inl, inr, Bool-cases, Option-cases,
}
use kfadapter.Base.Bytes.{Bytes, codes, bytes_eq→eq, bytes_eq_refl, has_byte}
use kfadapter.Base.Text.{split, split-append, split_whole, join, join-split}
use kfadapter.Wifiin.Provider.{
  Identity, provider_extension_identity, bar, is_field_byte, valid_text, valid_provider_field,
  joined, provider_extension_for_profile, valid_parts, valid_provider_extension_for_profile,
  valid_provider_extension,
}

no_bar : (s : Bytes) → all is_field_byte s ≡ true → has_byte bar s ≡ false
no_bar [] h = refl
no_bar (x ∷ s) h = ground (arith, no_bar s)

pub valid_text-no_bar : (limit : ℕ) (s : Bytes) → valid_text limit s ≡ true → has_byte bar s ≡ false
unfolding valid_text
valid_text-no_bar limit s h = ground (arith, no_bar s)

valid_text-length : (limit : ℕ) (s : Bytes) → valid_text limit s ≡ true → length s ≤ limit
unfolding valid_text
valid_text-length limit s h = ground arith

-- The two identities have no separator and are short.
abbrev IsPlain : Identity → Type 0
IsPlain i =
    (has_byte bar i.product ≡ false)
    × (has_byte bar i.os_name ≡ false)
    × (has_byte bar i.version ≡ false)
    × (length i.product + length i.os_name + length i.version ≤ 100)

identity-IsPlain :
    (profile : Bytes) (i : Identity) → provider_extension_identity profile ≡ some i → IsPlain i
unfolding provider_extension_identity
identity-IsPlain profile i h = ground arith

-- Splitting what was joined gives the seven parts back.
split-joined :
    (i : Identity) (t o u : Bytes)
    → IsPlain i
    → has_byte bar t ≡ false
    → has_byte bar o ≡ false
    → has_byte bar u ≡ false
    → split bar (joined i t o u) ≡ [] ∷ t ∷ i.product ∷ o ∷ u ∷ i.os_name ∷ i.version ∷ []
split-joined i t o u (hp, hs, hv, _) ht ho hu = rw (
  split-append bar [] _ refl,
  split-append bar t _ ht,
  split-append bar i.product _ hp,
  split-append bar o _ ho,
  split-append bar u _ hu,
  split-append bar i.os_name _ hs,
  split_whole bar i.version hv,
)

length-joined :
    (i : Identity) (t o u : Bytes)
    → length (joined i t o u)
      ≡ 6 + length t + length o + length u + length i.product + length i.os_name + length i.version
length-joined i t o u = simp (length-append) (omega arith)

joined-valid :
    (profile : Bytes) (i : Identity) (t o u : Bytes)
    → provider_extension_identity profile ≡ some i
    → valid_provider_field t ≡ true
    → valid_provider_field o ≡ true
    → valid_provider_field u ≡ true
    → valid_provider_extension_for_profile profile (joined i t o u) ≡ true
unfolding valid_provider_extension_for_profile
joined-valid profile i t o u e ht ho hu =
    let plain = identity-IsPlain profile i e in
    let parts =
      split-joined i t o u plain (valid_text-no_bar _ t ht) (valid_text-no_bar _ o ho)
        (valid_text-no_bar _ u hu) in
    rw (e, parts)
      (ground (
        arith,
        length-joined i t o u,
        valid_text-length 4096 t ht,
        valid_text-length 4096 o ho,
        valid_text-length 4096 u hu,
        bytes_eq_refl i.product,
        bytes_eq_refl i.os_name,
        bytes_eq_refl i.version,
      ))

either :
    (profile : Bytes) (i : Identity) (extra : Bytes)
    → provider_extension_identity profile ≡ some i
    → valid_provider_extension_for_profile profile extra ≡ true
    → valid_provider_extension extra ≡ true
unfolding provider_extension_identity valid_provider_extension
either profile i extra e h =
    ground (arith, bytes_eq→eq profile (codes "ios"), bytes_eq→eq profile (codes "windows"))

valid_parts-shape :
    (i : Identity) (parts : List Bytes)
    → valid_parts i parts ≡ true
    → (t : Bytes) × (o : Bytes) × (u : Bytes) × (parts
        ≡ [] ∷ t ∷ i.product ∷ o ∷ u ∷ i.os_name ∷ i.version ∷ [])
      × ((valid_provider_field t && valid_provider_field o && valid_provider_field u) ≡ true)
unfolding valid_parts
valid_parts-shape i ([] ∷ t ∷ p ∷ o ∷ u ∷ s ∷ v ∷ []) h = (
  t,
  o,
  u,
  ground (arith, bytes_eq→eq p i.product, bytes_eq→eq s i.os_name, bytes_eq→eq v i.version),
  ground arith,
)
valid_parts-shape i ((x ∷ l) ∷ t ∷ p ∷ o ∷ u ∷ s ∷ v ∷ []) h = cc
valid_parts-shape i _ h = cc

-- An extension that was built for a profile is accepted for that profile, and by the check that takes
-- either profile.
pub provider_extension-valid :
    (profile t o u extra : Bytes)
    → provider_extension_for_profile profile t o u ≡ some extra
    → (valid_provider_extension_for_profile profile extra ≡ true)
      × (valid_provider_extension extra ≡ true)
unfolding provider_extension_for_profile
provider_extension-valid profile t o u extra h =
    elim (Option-cases (provider_extension_identity profile)) [
      | inl e ↦ absurd (ground arith)
      | inr (i, e) ↦
          let built : extra ≡ joined i t o u = ground arith in
          let ok = joined-valid profile i t o u e (ground arith) (ground arith) (ground arith) in
          rw built (ok, either profile i (joined i t o u) e ok)
    ]

-- An extension that is accepted for a profile is one that is built for that profile from some token,
-- order and user.
pub valid_provider_extension-built :
    (profile extra : Bytes)
    → valid_provider_extension_for_profile profile extra ≡ true
    → (t : Bytes) × (o : Bytes) × (u : Bytes) × (provider_extension_for_profile profile t o u
        ≡ some extra)
unfolding valid_provider_extension_for_profile
valid_provider_extension-built profile extra h =
    elim (Option-cases (provider_extension_identity profile)) [
      | inl e ↦ absurd (ground arith)
      | inr (i, e) ↦
          let (t, o, u, shape, fields) = valid_parts-shape i (split bar extra) (ground arith) in
          let whole : joined i t o u ≡ extra = ap (join bar) (sym shape) ∙ join-split bar extra in
          (t, o, u, unfold provider_extension_for_profile in rw (e, fields) (ap some whole))
    ]

built-bar :
    (profile t o u extra : Bytes)
    → provider_extension_for_profile profile t o u ≡ some extra
    → (rest : Bytes) × (extra ≡ bar ∷ rest)
unfolding provider_extension_for_profile
built-bar profile t o u [] h = absurd (ground arith)
built-bar profile t o u (x ∷ rest) h = (rest, ground arith)

-- An accepted extension begins with the separator, which ends the host in front of it.
pub valid_provider_extension-bar :
    (extra : Bytes) → valid_provider_extension extra ≡ true → (rest : Bytes) × (extra ≡ bar ∷ rest)
unfolding valid_provider_extension
valid_provider_extension-bar extra h =
    elim (Bool-cases (valid_provider_extension_for_profile (codes "ios") extra)) [
      | inl e ↦ begins (codes "ios") e
      | inr e ↦ begins (codes "windows") (ground arith)
    ]
  where
    begins :
        (profile : Bytes)
        → valid_provider_extension_for_profile profile extra ≡ true
        → (rest : Bytes) × (extra ≡ bar ∷ rest)
    begins profile v =
        let (t, o, u, e) = valid_provider_extension-built profile extra v in
        built-bar profile t o u extra e
