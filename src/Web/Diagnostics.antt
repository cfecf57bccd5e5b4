-- ===== src/Web/Diagnostics.antt =====
-- internal/web/security.go: the redaction of diagnostics, on the decoded JSON that it is handed. An object's
-- entries are a list; a range over them takes all of them. `to_lower` is `strings.ToLower`, whose
-- Unicode tables are not part of the program.
use kfadapter.Base.{
  ℕ, ◌≡◌, refl, ap, Bool, true, false, ◌||◌, ◌&&◌, not, List, [], ◌∷◌, ◌++◌, if◌then◌else◌, ◌==◌,
  length, any, all, Option, none, some,
}
use kfadapter.Base.Bytes.{Bytes, bytes_eq, codes}
pub mod Redaction

mutual
  pub data Json : Type 0 where
    null : Json
    boolean : Bool → Json
    number : Bytes → Json
    text : Bytes → Json
    array : Values → Json
    object : Fields → Json

  pub data Values : Type 0 where
    no_values : Values
    value : Json → Values → Values

  pub data Fields : Type 0 where
    no_fields : Fields
    field : Bytes → Json → Fields → Fields

-- `strings.HasPrefix` and `strings.Contains`
abbrev pub has_prefix : Bytes → Bytes → Bool
has_prefix s [] = true
has_prefix [] (p ∷ ps) = false
has_prefix (c ∷ s) (p ∷ ps) = c == p && has_prefix s ps

abbrev pub contains : Bytes → Bytes → Bool
contains [] part = has_prefix [] part
contains (c ∷ s) part = has_prefix (c ∷ s) part || contains s part

-- The replacer takes `_`, `-` and `.` out.
abbrev pub is_separator : ℕ → Bool
is_separator c = c == 95 || c == 45 || c == 46

abbrev pub strip_separators : Bytes → Bytes
strip_separators [] = []
strip_separators (c ∷ s) =
    let rest = strip_separators s in if is_separator c then rest else c ∷ rest

abbrev pub secret_words : List Bytes
secret_words =
    codes "account"
    ∷ codes "password"
    ∷ codes "token"
    ∷ codes "authkey"
    ∷ codes "encryptkey"
    ∷ codes "providerextension"
    ∷ codes "capability"
    ∷ codes "accesskey"
    ∷ codes "selectorkey"
    ∷ codes "proxyauthkey"
    ∷ codes "credential"
    ∷ codes "session"
    ∷ codes "secret"
    ∷ codes "endpoint"
    ∷ codes "address"
    ∷ codes "host"
    ∷ codes "url"
    ∷ []

unfoldable pub diagnostic_secret_key : (Bytes → Bytes) → Bytes → Bool
diagnostic_secret_key to_lower key = any (contains (strip_separators (to_lower key))) secret_words

unfoldable pub looks_like_selector_credential : Bytes → Bool
looks_like_selector_credential s =
    (has_prefix s (codes "n_") && length s == 18) || (has_prefix s (codes "p_") && length s == 26)

abbrev pub redacted : Bytes
redacted = codes "redacted"

unfoldable pub sensitive_text : Bytes → Bool
unfolding looks_like_selector_credential
sensitive_text s =
    contains s (codes "socks5://") || contains s (codes "/sub/") || looks_like_selector_credential s

pub redact_text : Bytes → Bytes
unfolding sensitive_text
redact_text s = if sensitive_text s then redacted else s

-- The value in place of what a secret key names.
abbrev pub hide : Bool → Json → Json
hide secret v = if secret then text redacted else v

-- The switch of `redactDiagnosticValue`, and its two loops.
unfoldable mutual
  unfolding diagnostic_secret_key redact_text

  pub redact_inside : (Bytes → Bytes) → Json → Bytes → Json
  redact_inside to_lower null key = null
  redact_inside to_lower (boolean b) key = boolean b
  redact_inside to_lower (number n) key = number n
  redact_inside to_lower (text s) key = text (redact_text s)
  redact_inside to_lower (array vs) key = array (redact_values to_lower vs key)
  redact_inside to_lower (object fs) key = object (redact_fields to_lower fs)

  pub redact_values : (Bytes → Bytes) → Values → Bytes → Values
  redact_values to_lower no_values key = no_values
  redact_values to_lower (value v vs) key =
      value (hide (diagnostic_secret_key to_lower key) (redact_inside to_lower v key))
        (redact_values to_lower vs key)

  pub redact_fields : (Bytes → Bytes) → Fields → Fields
  redact_fields to_lower no_fields = no_fields
  redact_fields to_lower (field k v fs) =
      field k (hide (diagnostic_secret_key to_lower k) (redact_inside to_lower v k))
        (redact_fields to_lower fs)

unfoldable pub redact_diagnostic_value : (Bytes → Bytes) → Json → Bytes → Json
unfolding redact_inside
redact_diagnostic_value to_lower v key =
    hide (diagnostic_secret_key to_lower key) (redact_inside to_lower v key)

-- `redactDiagnostic` on a value that was encoded and decoded, `none` where that failed.
unfoldable pub redact_diagnostic : (Bytes → Bytes) → Option Json → Json
unfolding redact_diagnostic_value
redact_diagnostic to_lower none = object (field (codes "diagnostic") (text redacted) no_fields)
redact_diagnostic to_lower (some v) = redact_diagnostic_value to_lower v []
