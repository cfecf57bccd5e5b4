-- ===== src/State/Persistent/Account/Validity.antt =====
-- Ensuring an account keeps the durable state valid, and what it replaces.
use kfadapter.Base.{
  ℕ, suc, ◌^◌, ◌<◌, ◌≡◌, ◌≢◌, refl, Bool, true, false, Option, arith, Option-cases, inl, inr, ap,
  sym, ◌⊎◌, [], ◌∙◌, none, some, is_empty, length,
}
use kfadapter.Base.Bytes.{Bytes}
use kfadapter.State.Types.{}
use kfadapter.State.Binding.{SubscriptionGeneration, validate_subscription_generation}
use kfadapter.State.Manager.{u64}
use kfadapter.State.Manager.Installation.{is_empty→eq}
use kfadapter.State.Persistent.{
  Primitives, LastGoodState, no_last_good, PersistentState, done, access_token_initialized,
  derive_account_binding,
}
use kfadapter.State.Persistent.Validation.{
  validate_persistent_state, validate_last_good_state, last_good_state_empty, valid_installation_id,
  validate_preferences, verifier_absent_or_valid, is_none,
}
use kfadapter.State.Persistent.Account.{bound, rotated, ensure_subscription_account_binding}
use kfadapter.State.Persistent.Account.Binds.{
  KeySizes, derive_account_binding-some, Ensures, first, same, other,
  ensure_subscription_account_binding-done, new_subscription_generation-done,
}
use kfadapter.State.Persistent.Account.Again.{next-valid, bound-valid, next_number}

empty-kept :
    (x : Primitives) (l : LastGoodState) (g : ℕ)
    → last_good_state_empty l ≡ true
    → validate_last_good_state x l g ≡ true
unfolding validate_last_good_state
empty-kept x l g e = rw e refl

-- The parts of a state that is bound and has no session, and how they make it valid.
sealed-valid :
    (x : Primitives) (clock : ℕ → ℕ) (p : PersistentState)
    → valid_installation_id p.installation_id ≡ true
    → verifier_absent_or_valid p.access_token_verifier ≡ true
    → validate_subscription_generation p.subscription ≡ true
    → is_none p.access_token_verifier ≡ false
    → length p.subscription.account_binding ≡ 32
    → last_good_state_empty p.last_good ≡ true
    → p.active_session ≡ none
    → validate_preferences x p.preferences ≡ true
    → validate_persistent_state x clock p ≡ true
unfolding validate_persistent_state
sealed-valid x clock p i v g n size l a pr =
    let kept : validate_last_good_state x p.last_good p.subscription.generation ≡ true =
      empty-kept x p.last_good p.subscription.generation l in
    let full : is_empty p.subscription.account_binding ≡ false = ground (arith, size) in
    rw (i, v, g, full, n, kept, a, pr) refl

-- What every valid state has.
persistent-parts :
    (x : Primitives) (clock : ℕ → ℕ) (p : PersistentState)
    → validate_persistent_state x clock p ≡ true
    → (valid_installation_id p.installation_id ≡ true)
      × (verifier_absent_or_valid p.access_token_verifier ≡ true)
      × (validate_preferences x p.preferences ≡ true)
      × (is_empty p.subscription.account_binding ≡ true
          → (last_good_state_empty p.last_good ≡ true) × (is_none p.active_session ≡ true))
unfolding validate_persistent_state
persistent-parts x clock p h = (
  ground (arith, h),
  ground (arith, h),
  ground (arith, h),
  λ e. (ground (arith, h, e), ground (arith, h, e)),
)

no_last_good-empty : last_good_state_empty no_last_good ≡ true
unfolding last_good_state_empty
no_last_good-empty = refl

is_none→eq {ℓ} : {A : Type ℓ} (o : Option A) → is_none o ≡ true → o ≡ none
is_none→eq none e = refl
is_none→eq (some a) e = ground arith

initialized-some :
    (p : PersistentState)
    → access_token_initialized p ≡ true
    → is_none p.access_token_verifier ≡ false
unfolding access_token_initialized
initialized-some p e = elim (Option-cases p.access_token_verifier) [
  | inl h ↦ absurd (ground (arith, rw h at e))
  | inr (v, h) ↦ rw h refl
]

Ensures-valid :
    (x : Primitives) (clock : ℕ → ℕ) (random : ℕ → Option Bytes) (now : ℕ) (user b : Bytes)
    (p : PersistentState) (c : Bool) (p' : PersistentState)
    → KeySizes x random
    → now ≢ 0
    → suc p.subscription.generation < 2 ^ 64
    → validate_subscription_generation p.subscription ≡ true
    → derive_account_binding x p user ≡ some b
    → validate_persistent_state x clock p ≡ true
    → Ensures random now b p c p'
    → validate_persistent_state x clock p' ≡ true
Ensures-valid x clock random now user b p c p' z t room g e h (same own) = h
Ensures-valid x clock random now user b p c p' z t room g e h (first empty) =
    let d = derive_account_binding-some x random p user b z e in
    let k = persistent-parts x clock p h in
    let l = k.3 empty in
    sealed-valid x clock (bound b p) k.0 k.1 (bound-valid p.subscription b g d.1)
      (initialized-some p d.0) d.1 l.0 (is_none→eq p.active_session l.1) k.2
Ensures-valid x clock random now user b p c p' z t room g e h (other strange next made) =
    let d = derive_account_binding-some x random p user b z e in
    let k = persistent-parts x clock p h in
    sealed-valid x clock (rotated b p next) k.0 k.1
      (next-valid x random (u64 (suc p.subscription.generation)) now next b z
        (next_number p.subscription.generation room) t d.1 made)
      (initialized-some p d.0) d.1 no_last_good-empty refl k.2

Ensures-bound :
    (random : ℕ → Option Bytes) (now : ℕ) (b : Bytes) (p : PersistentState) (c : Bool)
    (p' : PersistentState)
    → Ensures random now b p c p'
    → p'.subscription.account_binding ≡ b
Ensures-bound random now b p c p' (first empty) = refl
Ensures-bound random now b p c p' (same own) = own
Ensures-bound random now b p c p' (other strange next made) = refl

-- Whether the state is bound to the user's account, or to none yet.
abbrev pub IsOwn : Primitives → Bytes → PersistentState → Type 0
IsOwn x user p =
    (p.subscription.account_binding ≡ [])
    ⊎ (derive_account_binding x p user ≡ some p.subscription.account_binding)

-- What stays for the state's own account.
abbrev pub Kept : PersistentState → PersistentState → Type 0
Kept p p' =
    (p'.subscription.selector_key ≡ p.subscription.selector_key)
    × (p'.subscription.proxy_auth_key ≡ p.subscription.proxy_auth_key)
    × (p'.subscription.generation ≡ p.subscription.generation)
    × (p'.last_good ≡ p.last_good)
    × (p'.active_session ≡ p.active_session)

-- What another account gets: the next generation with the two keys that were drawn.
abbrev pub Replaced : (ℕ → Option Bytes) → PersistentState → PersistentState → Type 0
Replaced random p p' =
    (random 0 ≡ some p'.subscription.selector_key)
    × (random 1 ≡ some p'.subscription.proxy_auth_key)
    × (p'.subscription.generation ≡ suc p.subscription.generation)
    × (p'.last_good ≡ no_last_good)
    × (p'.active_session ≡ none)

-- What ensuring the account of `user` does, by whose account the state is bound to; `c` is the flag that
-- is returned, whether the account changed.
abbrev pub Succession :
    Primitives → (ℕ → Option Bytes) → Bytes → PersistentState → Bool → PersistentState → Type 0
Succession x random user p c p' =
    (IsOwn x user p × (c ≡ false) × Kept p p')
    ⊎ ((¬ (IsOwn x user p)) × (c ≡ true) × Replaced random p p')

Ensures-Succession :
    (x : Primitives) (random : ℕ → Option Bytes) (now : ℕ) (user b : Bytes) (p : PersistentState)
    (c : Bool) (p' : PersistentState)
    → suc p.subscription.generation < 2 ^ 64
    → derive_account_binding x p user ≡ some b
    → Ensures random now b p c p'
    → Succession x random user p c p'
Ensures-Succession x random now user b p c p' room e (same own) =
    inl (inr (e ∙ ap some (sym own)), refl, (refl, refl, refl, refl, refl))
Ensures-Succession x random now user b p c p' room e (first empty) =
    inl
      (inl (is_empty→eq p.subscription.account_binding empty), refl, (refl, refl, refl, refl, refl))
Ensures-Succession x random now user b p c p' room e (other strange next made) =
    let d =
      new_subscription_generation-done random (u64 (suc p.subscription.generation)) now next made in
    inr (
      λ own. elim own [ inl z ↦ strange.0 z | inr z ↦ strange.1 (ground (arith, z, e)) ],
      refl,
      (
        d.2.0 ∙ ap (λ (g : SubscriptionGeneration). some g.selector_key) (sym d.2.2),
        d.2.1 ∙ ap (λ (g : SubscriptionGeneration). some g.proxy_auth_key) (sym d.2.2),
        ap (λ (g : SubscriptionGeneration). g.generation) d.2.2 ∙ omega (arith, room),
        refl,
        refl,
      ),
    )

-- Ensuring an account keeps a valid durable state valid, and the state is then bound to that account.
-- Where it was bound to that account or to none, the keys, the generation, the last good state and the
-- session stay, and the call says that nothing changed; where it was bound to another, it gets the next
-- generation and the two keys that were drawn, neither a last good state nor a session is left, and the
-- call says that the account changed. The codes and keys have 32 bytes, the clock is not zero and the
-- generation has a next.
pub ensure-valid :
    (x : Primitives) (clock : ℕ → ℕ) (random : ℕ → Option Bytes) (user : Bytes) (now : ℕ)
    (p : PersistentState) (t : Bool × PersistentState)
    → KeySizes x random
    → now ≢ 0
    → suc p.subscription.generation < 2 ^ 64
    → validate_persistent_state x clock p ≡ true
    → ensure_subscription_account_binding x random user now p ≡ done t
    → (validate_persistent_state x clock t.1 ≡ true)
      × (derive_account_binding x p user ≡ some t.1.subscription.account_binding)
      × Succession x random user p t.0 t.1
ensure-valid x clock random user now p t z n room h e =
    let d = ensure_subscription_account_binding-done x random user now p t e in
    (
      Ensures-valid x clock random now user d.1.0 p t.0 t.1 z n room d.0 d.1.1 h d.1.2,
      d.1.1 ∙ ap some (sym (Ensures-bound random now d.1.0 p t.0 t.1 d.1.2)),
      Ensures-Succession x random now user d.1.0 p t.0 t.1 room d.1.1 d.1.2,
    )
