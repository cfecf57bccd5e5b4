-- ===== src/Web/Diagnostics/Redaction.antt =====
-- What redaction leaves of a value, by a description of secrets of its own.
use kfadapter.Base.{
  ◌≡◌, ◌⊎◌, refl, ap, ◌∙◌, Bool, true, false, List, [], ◌∷◌, ◌++◌, Option, none, some,
  if◌then◌else◌, length, any, all, arith, Bool-cases, inl, inr, ==_refl,
}
use kfadapter.Base.Bytes.{Bytes, bytes_eq, bytes_eq→eq, codes, has_byte}
use kfadapter.Base.Dict.{member, member→mem, mem→member}
use mathlib.Core.List.{Mem}
use kfadapter.Web.Diagnostics.{
  Json, null, boolean, number, text, array, object, Values, no_values, value, Fields, no_fields,
  field, contains, has_prefix, strip_separators, secret_words, diagnostic_secret_key,
  sensitive_text, looks_like_selector_credential, hide, redact_text, redact_diagnostic_value,
  redact_inside, redact_values, redact_fields, redact_diagnostic,
}

-- The words that make a key secret, in the order of the alphabet.
abbrev pub secret_names : List Bytes
secret_names =
    codes "accesskey"
    ∷ codes "account"
    ∷ codes "address"
    ∷ codes "authkey"
    ∷ codes "capability"
    ∷ codes "credential"
    ∷ codes "encryptkey"
    ∷ codes "endpoint"
    ∷ codes "host"
    ∷ codes "password"
    ∷ codes "providerextension"
    ∷ codes "proxyauthkey"
    ∷ codes "secret"
    ∷ codes "selectorkey"
    ∷ codes "session"
    ∷ codes "token"
    ∷ codes "url"
    ∷ []

-- A text without its `_`, `-` and `.`.
abbrev pub bare : Bytes → Bytes
bare [] = []
bare (c ∷ s) = let rest = bare s in if has_byte c (codes "_-.") then rest else c ∷ rest

-- A part that stands somewhere in a text.
pub StandsIn : Bytes → Bytes → Type 0
StandsIn part s = (before : Bytes) × (after : Bytes) × (s ≡ before ++ (part ++ after))

-- A key in which one of the words stands, in lower case and without separators.
pub NamesSecret : (Bytes → Bytes) → Bytes → Type 0
NamesSecret to_lower key =
    (word : Bytes) × (Mem word secret_names × StandsIn word (bare (to_lower key)))

-- A text that shows an address of the proxy or of a subscription, or has the form of a selector's name
-- or of its password.
pub data IsTelling (s : Bytes) : Type 0 where
  proxy_address : StandsIn (codes "socks5://") s → IsTelling s
  subscription_path : StandsIn (codes "/sub/") s → IsTelling s
  selector_name : (code : Bytes) → length code ≡ 16 → s ≡ codes "n_" ++ code → IsTelling s
  selector_password : (code : Bytes) → length code ≡ 24 → s ≡ codes "p_" ++ code → IsTelling s

pub NoSecret : (Bytes → Bytes) → List Bytes → Type 0
NoSecret to_lower keys = ¬ ((key : Bytes) × (Mem key keys × NamesSecret to_lower key))

-- Every leaf of a value under the keys on the way to it, the nearest first: it is the text that stands for
-- what was taken out, or none of the keys names a secret and it is no telling text.
mutual
  pub IsShut : (Bytes → Bytes) → List Bytes → Json → Type 0
  IsShut to_lower keys null = NoSecret to_lower keys
  IsShut to_lower keys (boolean b) = NoSecret to_lower keys
  IsShut to_lower keys (number n) = NoSecret to_lower keys
  IsShut to_lower keys (text s) =
      (s ≡ codes "redacted") ⊎ (NoSecret to_lower keys × (¬ (IsTelling s)))
  IsShut to_lower keys (array vs) = AreShut to_lower keys vs
  IsShut to_lower keys (object fs) = FieldsShut to_lower keys fs

  pub AreShut : (Bytes → Bytes) → List Bytes → Values → Type 0
  AreShut to_lower keys no_values = Unit {0}
  AreShut to_lower keys (value v vs) = IsShut to_lower keys v × AreShut to_lower keys vs

  pub FieldsShut : (Bytes → Bytes) → List Bytes → Fields → Type 0
  FieldsShut to_lower keys no_fields = Unit {0}
  FieldsShut to_lower keys (field k v fs) =
      IsShut to_lower (k ∷ keys) v × FieldsShut to_lower keys fs

bare-strip_separators : (s : Bytes) → bare s ≡ strip_separators s
bare-strip_separators [] = refl
bare-strip_separators (c ∷ s) = ground (arith, bare-strip_separators s)

has_prefix_self : (part after : Bytes) → has_prefix (part ++ after) part ≡ true
has_prefix_self [] [] = refl
has_prefix_self [] (c ∷ after) = refl
has_prefix_self (c ∷ part) after = ground (arith, has_prefix_self part after, ==_refl c)

contains_prefix : (s part : Bytes) → has_prefix s part ≡ true → contains s part ≡ true
contains_prefix [] part h = h
contains_prefix (c ∷ s) part h = ground (arith, h)

contains_after : (before part after : Bytes) → contains (before ++ (part ++ after)) part ≡ true
contains_after [] part after = contains_prefix (part ++ after) part (has_prefix_self part after)
contains_after (c ∷ before) part after = ground (arith, contains_after before part after)

StandsIn-contains : (part s : Bytes) → StandsIn part s → contains s part ≡ true
unfolding StandsIn
StandsIn-contains part s h = rw h.2 (contains_after h.0 part h.1)

any-member :
    (p : Bytes → Bool) (word : Bytes) (words : List Bytes)
    → member word words ≡ true
    → p word ≡ true
    → any p words ≡ true
any-member p word [] m h = m
any-member p word (w ∷ words) m h = elim (Bool-cases (bytes_eq word w)) [
  | inl e ↦ ground (arith, ap p (bytes_eq→eq word w e), h)
  | inr e ↦ ground (arith, any-member p word words (ground (arith, m, e)) h)
]

member-all :
    (word : Bytes) (names words : List Bytes)
    → all (λ w. member w words) names ≡ true
    → member word names ≡ true
    → member word words ≡ true
member-all word [] words a m = absurd (ground (arith, m))
member-all word (w ∷ names) words a m = elim (Bool-cases (bytes_eq word w)) [
  | inl e ↦ ap (λ z. member z words) (bytes_eq→eq word w e) ∙ ground (arith, a)
  | inr e ↦ member-all word names words (ground (arith, a)) (ground (arith, m, e))
]

NamesSecret-diagnostic_secret_key :
    (to_lower : Bytes → Bytes) (key : Bytes)
    → NamesSecret to_lower key
    → diagnostic_secret_key to_lower key ≡ true
unfolding NamesSecret diagnostic_secret_key
NamesSecret-diagnostic_secret_key to_lower key h =
    any-member (contains (strip_separators (to_lower key))) h.0 secret_words
      (member-all h.0 secret_names secret_words refl (mem→member h.0 secret_names h.1.0))
      (rw (← bare-strip_separators (to_lower key))
        (StandsIn-contains h.0 (bare (to_lower key)) h.1.1))

has_prefix_empty : (s : Bytes) → has_prefix s [] ≡ true
has_prefix_empty [] = refl
has_prefix_empty (c ∷ s) = refl

selector_name-looks :
    (code : Bytes) → length code ≡ 16 → looks_like_selector_credential (codes "n_" ++ code) ≡ true
unfolding looks_like_selector_credential
selector_name-looks code n = ground (arith, n, has_prefix_empty code)

selector_password-looks :
    (code : Bytes) → length code ≡ 24 → looks_like_selector_credential (codes "p_" ++ code) ≡ true
unfolding looks_like_selector_credential
selector_password-looks code n = ground (arith, n, has_prefix_empty code)

IsTelling-sensitive_text : (s : Bytes) → IsTelling s → sensitive_text s ≡ true
unfolding sensitive_text
IsTelling-sensitive_text s (proxy_address h) =
    ground (arith, StandsIn-contains (codes "socks5://") s h)
IsTelling-sensitive_text s (subscription_path h) =
    ground (arith, StandsIn-contains (codes "/sub/") s h)
IsTelling-sensitive_text s (selector_name code n e) =
    let looks : looks_like_selector_credential s ≡ true = rw e (selector_name-looks code n) in
    ground (arith, looks)
IsTelling-sensitive_text s (selector_password code n e) =
    let looks : looks_like_selector_credential s ≡ true = rw e (selector_password-looks code n) in
    ground (arith, looks)

redact_text-shut :
    (s : Bytes) → (redact_text s ≡ codes "redacted") ⊎ (¬ (IsTelling (redact_text s)))
unfolding redact_text
redact_text-shut s = elim (Bool-cases (sensitive_text s)) [
  | inl e ↦ inl (rw e refl)
  | inr e ↦ inr (rw e (λ t. ground (arith, e, IsTelling-sensitive_text s t)))
]

NoSecret-cons :
    (to_lower : Bytes → Bytes) (key : Bytes) (keys : List Bytes)
    → diagnostic_secret_key to_lower key ≡ false
    → NoSecret to_lower keys
    → NoSecret to_lower (key ∷ keys)
unfolding NoSecret
NoSecret-cons to_lower key keys e n h = elim (Bool-cases (bytes_eq h.0 key)) [
  | inl q ↦
      let secret : diagnostic_secret_key to_lower h.0 ≡ true =
        NamesSecret-diagnostic_secret_key to_lower h.0 h.1.1 in
      ground (arith, e, secret, ap (diagnostic_secret_key to_lower) (bytes_eq→eq h.0 key q))
  | inr q ↦
      let there : member h.0 (key ∷ keys) ≡ true = mem→member h.0 (key ∷ keys) h.1.0 in
      n (h.0, (member→mem h.0 keys (ground (arith, there, q)), h.1.1))
]

NoSecret-none : (to_lower : Bytes → Bytes) → NoSecret to_lower []
unfolding NoSecret
NoSecret-none to_lower h =
    let there : member h.0 [] ≡ true = mem→member h.0 [] h.1.0 in ground (arith, there)

-- A value in the place of which a secret key puts the text.
IsShut-hide :
    (to_lower : Bytes → Bytes) (keys : List Bytes) (v : Json) (secret : Bool)
    → (secret ≡ false → IsShut to_lower keys v)
    → IsShut to_lower keys (hide secret v)
unfolding IsShut
IsShut-hide to_lower keys v true h = inl refl
IsShut-hide to_lower keys v false h = h refl

mutual
  unfolding redact_inside IsShut

  redact_inside-IsShut :
      (to_lower : Bytes → Bytes) (keys : List Bytes) (v : Json) (key : Bytes)
      → NoSecret to_lower keys
      → IsShut to_lower keys (redact_inside to_lower v key)
  redact_inside-IsShut to_lower keys null key n = n
  redact_inside-IsShut to_lower keys (boolean b) key n = n
  redact_inside-IsShut to_lower keys (number d) key n = n
  redact_inside-IsShut to_lower keys (text s) key n = elim (redact_text-shut s) [
    | inl e ↦ inl e
    | inr t ↦ inr (n, t)
  ]
  redact_inside-IsShut to_lower keys (array vs) key n = redact_values-AreShut to_lower keys vs key n
  redact_inside-IsShut to_lower keys (object fs) key n = redact_fields-FieldsShut to_lower keys fs n

  redact_values-AreShut :
      (to_lower : Bytes → Bytes) (keys : List Bytes) (vs : Values) (key : Bytes)
      → NoSecret to_lower keys
      → AreShut to_lower keys (redact_values to_lower vs key)
  redact_values-AreShut to_lower keys no_values key n = tt
  redact_values-AreShut to_lower keys (value v vs) key n = (
    IsShut-hide to_lower keys (redact_inside to_lower v key) (diagnostic_secret_key to_lower key)
        (λ e. redact_inside-IsShut to_lower keys v key n),
    redact_values-AreShut to_lower keys vs key n,
  )

  redact_fields-FieldsShut :
      (to_lower : Bytes → Bytes) (keys : List Bytes) (fs : Fields)
      → NoSecret to_lower keys
      → FieldsShut to_lower keys (redact_fields to_lower fs)
  redact_fields-FieldsShut to_lower keys no_fields n = tt
  redact_fields-FieldsShut to_lower keys (field k v fs) n = (
    IsShut-hide to_lower (k ∷ keys) (redact_inside to_lower v k) (diagnostic_secret_key to_lower k)
        (λ e. redact_inside-IsShut to_lower (k ∷ keys) v k (NoSecret-cons to_lower k keys e n)),
    redact_fields-FieldsShut to_lower keys fs n,
  )

-- In a redacted diagnostic every leaf is the text that stands for what was taken out, or it stands under
-- no key that names a secret, at any depth, and is no telling text. A key names a secret where one of
-- seventeen words stands in it, in lower case and without `_`, `-` and `.`; a text is telling where
-- `socks5://` or `/sub/` stands in it, or where it has as a whole the form of a selector's name or
-- password. This holds too where the value could not be encoded.
pub redact_diagnostic-IsShut :
    (to_lower : Bytes → Bytes) (decoded : Option Json)
    → IsShut to_lower [] (redact_diagnostic to_lower decoded)
unfolding redact_diagnostic redact_diagnostic_value IsShut
redact_diagnostic-IsShut to_lower none = (inl refl, tt)
redact_diagnostic-IsShut to_lower (some v) =
    IsShut-hide to_lower [] (redact_inside to_lower v []) (diagnostic_secret_key to_lower [])
      (λ e. redact_inside-IsShut to_lower [] v [] (NoSecret-none to_lower))
