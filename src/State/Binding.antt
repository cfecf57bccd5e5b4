-- ===== src/State/Binding.antt =====
-- internal/state: the subscription generation and the account binding. HMAC-SHA256 is the argument
-- `hmac key message`.
use kfadapter.Base.{
  ℕ, ◌≡◌, Bool, true, false, ◌&&◌, ◌||◌, not, [], ◌∷◌, ◌++◌, Option, none, some, is_empty, length,
  ltb, ◌==◌, arith, Option-cases, inl, inr,
}
use kfadapter.Base.Bytes.{Bytes, codes, bytes_eq, bytes_eq→eq, has_byte}
use kfadapter.Base.Text.{trim_space, utf8_valid}

pub record SubscriptionGeneration : Type 0 where
  pub generation : ℕ
  pub selector_key : Bytes
  pub proxy_auth_key : Bytes
  pub account_binding : Bytes
  pub activated_at : ℕ

-- `SubscriptionGeneration{}`
abbrev pub no_subscription : SubscriptionGeneration
no_subscription = record {
  generation = 0;
  selector_key = [];
  proxy_auth_key = [];
  account_binding = [];
  activated_at = 0;
}

-- `sha256.Size`
abbrev pub sha256_size : ℕ
sha256_size = 32

-- Whether `validateSubscriptionGeneration` returns no error.
unfoldable pub validate_subscription_generation : SubscriptionGeneration → Bool
validate_subscription_generation g = not (
    g.generation == 0
    || g.activated_at == 0
    || not (length g.selector_key == sha256_size)
    || not (length g.proxy_auth_key == sha256_size)
    || (not (is_empty g.account_binding) && not (length g.account_binding == sha256_size)))

-- The trimmed identifier, or none where the source returns `ErrAccountChanged`.
unfoldable pub canonical_provider_user_id : Bytes → Option Bytes
canonical_provider_user_id user =
    let canonical = trim_space user in
    elim (is_empty canonical
      || ltb 1024 (length canonical)
      || not (utf8_valid canonical)
      || has_byte 0 canonical) [ true ↦ none | false ↦ some canonical ]

abbrev pub account_binding_domain : Bytes
account_binding_domain = codes "kfadapter/subscription-account/v2" ++ (0 ∷ [])

unfoldable pub same_subscription_credentials :
    SubscriptionGeneration → SubscriptionGeneration → Bool
same_subscription_credentials left right =
    bytes_eq left.selector_key right.selector_key
    && bytes_eq left.proxy_auth_key right.proxy_auth_key

unfoldable pub same_subscription_generation : SubscriptionGeneration → SubscriptionGeneration → Bool
unfolding same_subscription_credentials
same_subscription_generation left right =
    left.generation == right.generation
    && same_subscription_credentials left right
    && bytes_eq left.account_binding right.account_binding

unfoldable pub rotated_subscription_material :
    SubscriptionGeneration → SubscriptionGeneration → Bool
rotated_subscription_material current candidate =
    not (bytes_eq current.selector_key candidate.selector_key)
    && not (bytes_eq current.proxy_auth_key candidate.proxy_auth_key)

module _ (hmac : Bytes → Bytes → Bytes) where
  unfoldable pub account_binding_for : Bytes → Bytes → Option Bytes
  account_binding_for key user = elim (canonical_provider_user_id user) [
    | none ↦ none
    | some canonical ↦ (elim (length key == sha256_size) [
      | true ↦ some (hmac key (account_binding_domain ++ canonical))
      | false ↦ none
    ])
  ]

  unfoldable pub matches_account_binding : Bytes → Bytes → Bytes → Bool
  matches_account_binding binding key user = elim (account_binding_for key user) [
    | none ↦ false
    | some expected ↦ length binding == sha256_size && bytes_eq binding expected
  ]

  -- A match pins the binding down: it is the HMAC of the trimmed account under the key, so two
  -- accounts that match one binding have one code, and the key has 32 bytes.
  pub matches_account_binding→eq :
      (binding key user : Bytes)
      → matches_account_binding binding key user ≡ true
      → account_binding_for key user ≡ some binding
  unfolding matches_account_binding
  matches_account_binding→eq binding key user h =
      elim (Option-cases (account_binding_for key user)) [
        | inl e ↦ ground arith
        | inr (expected, e) ↦ ground (arith, bytes_eq→eq binding expected)
      ]
