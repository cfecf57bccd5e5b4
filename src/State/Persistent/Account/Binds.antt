-- ===== src/State/Persistent/Account/Binds.antt =====
-- After the account is ensured the state is bound to it, and ensuring it again changes nothing.
use kfadapter.Base.{
  ℕ, suc, ◌≡◌, ◌≢◌, refl, Bool, true, false, ◌||◌, not, [], ◌++◌, Option, arith, Bool-cases,
  Option-cases, inl, inr, sym, ap, subst, some, is_empty, length, ◌==◌,
}
use kfadapter.Base.Bytes.{Bytes, bytes_eq}
use kfadapter.State.Types.{}
use kfadapter.State.Binding.{
  SubscriptionGeneration, validate_subscription_generation, account_binding_for,
  matches_account_binding, sha256_size, canonical_provider_user_id, account_binding_domain,
}
use kfadapter.State.Manager.{u64}
use kfadapter.State.Persistent.{
  Primitives, PersistentState, Answer, done, fails, verifier_valid, access_token_initialized,
  derive_account_binding, matches_account,
}
use kfadapter.Base.Bytes.{bytes_eq_refl}
use kfadapter.Base.Bytes.{bytes_eq→eq}
use kfadapter.State.Persistent.Account.{
  new_subscription_generation, bound, rotated, rotate, bind_or_rotate,
  ensure_subscription_account_binding,
}

-- HMAC-SHA256 gives 32 bytes, and so do the draws of keys.
pub record KeySizes (x : Primitives) (random : ℕ → Option Bytes) : Type 0 where
  pub hmac_size : (key message : Bytes) → length (x.hmac key message) ≡ 32
  pub key_size : (i : ℕ) (key : Bytes) → random i ≡ some key → length key ≡ 32

account_binding_for-size :
    (x : Primitives) (random : ℕ → Option Bytes) (key user b : Bytes)
    → KeySizes x random
    → account_binding_for x.hmac key user ≡ some b
    → length b ≡ 32
unfolding account_binding_for
account_binding_for-size x random key user b z e =
    elim (Option-cases (canonical_provider_user_id user)) [
      | inl h ↦ absurd (ground (arith, rw (account_binding_for, h) at e))
      | inr (c, h) ↦ elim (Bool-cases (length key == sha256_size)) [
        | inr k ↦ absurd (ground (arith, rw (account_binding_for, h, k) at e))
        | inl k ↦
            let own : some (x.hmac key (account_binding_domain ++ c)) ≡ some b =
              rw (account_binding_for, h, k) at e in
            ground (arith, own, z.hmac_size key (account_binding_domain ++ c))
      ]
    ]

-- A derived binding: the state has a verifier, and a binding that is the derived one is a match.
pub derive_account_binding-some :
    (x : Primitives) (random : ℕ → Option Bytes) (p : PersistentState) (user b : Bytes)
    → KeySizes x random
    → derive_account_binding x p user ≡ some b
    → (access_token_initialized p ≡ true)
      × (length b ≡ 32)
      × (p.subscription.account_binding ≡ b → matches_account x p user ≡ true)
unfolding derive_account_binding access_token_initialized matches_account matches_account_binding
derive_account_binding-some x random p user b z e = elim (Option-cases p.access_token_verifier) [
  | inl h ↦ absurd (ground (arith, rw h at e))
  | inr (v, h) ↦ elim (Bool-cases (verifier_valid v)) [
    | inr w ↦ absurd (ground (arith, rw (h, w) at e))
    | inl w ↦
        let f : account_binding_for x.hmac v.hash user ≡ some b = rw (h, w) at e in
        let size = account_binding_for-size x random v.hash user b z f in
        (
          rw (h, w) refl,
          size,
          λ own. rw (h, w, matches_account_binding, f, own) (ground (arith, size, bytes_eq_refl b)),
        )
  ]
]

-- The three ways in which a state is bound to the account with the binding `b`.
pub data Ensures (random : ℕ → Option Bytes) (now : ℕ) (b : Bytes) (p : PersistentState)
    : Bool → PersistentState → Type 0 where
  first : is_empty p.subscription.account_binding ≡ true → Ensures random now b p false (bound b p)
  same : p.subscription.account_binding ≡ b → Ensures random now b p false p
  other :
      (p.subscription.account_binding ≢ []) × (p.subscription.account_binding ≢ b)
      → (next : SubscriptionGeneration)
      → new_subscription_generation random (u64 (suc p.subscription.generation)) now ≡ done next
      → Ensures random now b p true (rotated b p next)

answer_or {ℓ} : {A : Type ℓ} → A → Answer A → A
answer_or a (done w) = w
answer_or a (fails e) = a

done-injective {ℓ} : {A : Type ℓ} (a b : A) → Answer.done a ≡ done b → a ≡ b
unfolding answer_or
done-injective a b e = ap (answer_or a) e

done→Ensures :
    (random : ℕ → Option Bytes) (now : ℕ) (b : Bytes) (p : PersistentState)
    (r t : Bool × PersistentState)
    → Ensures random now b p r.0 r.1
    → Answer.done r ≡ done t
    → Ensures random now b p t.0 t.1
done→Ensures random now b p r t h e =
    subst (λ w. Ensures random now b p w.0 w.1) (done-injective r t e) h

rotate→Ensures :
    (random : ℕ → Option Bytes) (now : ℕ) (b : Bytes) (p : PersistentState)
    (t : Bool × PersistentState) (g : Answer SubscriptionGeneration)
    → (p.subscription.account_binding ≢ []) × (p.subscription.account_binding ≢ b)
    → new_subscription_generation random (u64 (suc p.subscription.generation)) now ≡ g
    → rotate b p g ≡ done t
    → Ensures random now b p t.0 t.1
rotate→Ensures random now b p t (done next) s h e =
    done→Ensures random now b p (true, rotated b p next) t (other s next h) e
rotate→Ensures random now b p t (fails f) s h e = absurd (ground (arith, e))

bind_or_rotate→Ensures :
    (random : ℕ → Option Bytes) (now : ℕ) (b : Bytes) (p : PersistentState)
    (t : Bool × PersistentState)
    → bind_or_rotate random now p b ≡ done t
    → Ensures random now b p t.0 t.1
unfolding bind_or_rotate
bind_or_rotate→Ensures random now b p t e =
    elim (Bool-cases (is_empty p.subscription.account_binding)) [
      | inl f ↦ done→Ensures random now b p (false, bound b p) t (first f) (rw f at e)
      | inr f ↦ elim (Bool-cases (bytes_eq p.subscription.account_binding b)) [
        | inl q ↦
            done→Ensures random now b p (false, p) t
              (same (bytes_eq→eq p.subscription.account_binding b q)) (rw (f, q) at e)
        | inr q ↦
            rotate→Ensures random now b p t
              (new_subscription_generation random (u64 (suc p.subscription.generation)) now)
              (λ z. ground (arith, f, z), λ z. absurd (ground (arith, rw z at q, bytes_eq_refl b)))
              refl (rw (f, q) at e)
      ]
    ]

-- What a success of the whole call says.
pub ensure_subscription_account_binding-done :
    (x : Primitives) (random : ℕ → Option Bytes) (user : Bytes) (now : ℕ) (p : PersistentState)
    (t : Bool × PersistentState)
    → ensure_subscription_account_binding x random user now p ≡ done t
    → (validate_subscription_generation p.subscription ≡ true)
      × ((b : Bytes) × (derive_account_binding x p user ≡ some b) × Ensures random now b p t.0 t.1)
unfolding ensure_subscription_account_binding
ensure_subscription_account_binding-done x random user now p t e =
    elim (Bool-cases
      (not (access_token_initialized p) || not (validate_subscription_generation p.subscription))) [
        | inl g ↦ absurd (ground (arith, rw g at e))
        | inr g ↦ elim (Option-cases (derive_account_binding x p user)) [
          | inl h ↦ absurd (ground (arith, rw (g, h) at e))
          | inr (b, h) ↦
              (ground (arith, g), (b, h, bind_or_rotate→Ensures random now b p t (rw (g, h) at e)))
        ]
      ]

pub new_subscription_generation-done :
    (random : ℕ → Option Bytes) (number now : ℕ) (next : SubscriptionGeneration)
    → new_subscription_generation random number now ≡ done next
    → (k : Bytes) × (q : Bytes) × ((random 0 ≡ some k)
        × (random 1 ≡ some q)
        × (next ≡ record {
          generation = number;
          selector_key = k;
          proxy_auth_key = q;
          account_binding = [];
          activated_at = now;
        }))
unfolding new_subscription_generation
new_subscription_generation-done random number now next e = elim (Option-cases (random 0)) [
  | inl h ↦ absurd (ground (arith, rw (new_subscription_generation, h) at e))
  | inr (k, h) ↦ elim (Option-cases (random 1)) [
    | inl i ↦ absurd (ground (arith, rw (new_subscription_generation, h, i) at e))
    | inr (q, i) ↦
        (k, q, (h, i, sym (done-injective _ next (rw (new_subscription_generation, h, i) at e))))
  ]
]
