-- ===== src/State/Persistent/Account/Again.antt =====
-- Ensuring an account again changes nothing.
use kfadapter.Base.{
  ℕ, suc, ◌^◌, ◌<◌, ◌≡◌, ◌≢◌, refl, Bool, true, false, Option, arith, some, is_empty, length,
}
use kfadapter.Base.Bytes.{Bytes, bytes_eq}
use kfadapter.State.Types.{}
use kfadapter.State.Binding.{SubscriptionGeneration, validate_subscription_generation}
use kfadapter.State.Manager.{u64}
use kfadapter.State.Persistent.{
  Primitives, PersistentState, done, derive_account_binding, matches_account,
}
use kfadapter.Base.Bytes.{bytes_eq_refl}
use kfadapter.State.Persistent.Account.{
  new_subscription_generation, bound, rotated, bind_or_rotate, ensure_subscription_account_binding,
}
use kfadapter.State.Persistent.Account.Binds.{
  KeySizes, derive_account_binding-some, Ensures, first, same, other,
  ensure_subscription_account_binding-done, new_subscription_generation-done,
}

-- A state that is bound to an account: ensuring it again changes nothing.
pub Ensured : Primitives → Bytes → PersistentState → Type 0
Ensured x user p =
    (matches_account x p user ≡ true)
    × ((random : ℕ → Option Bytes) (now : ℕ)
        → ensure_subscription_account_binding x random user now p ≡ done (false, p))

bind_or_rotate-own :
    (random : ℕ → Option Bytes) (now : ℕ) (p : PersistentState) (b : Bytes)
    → length b ≡ 32
    → p.subscription.account_binding ≡ b
    → bind_or_rotate random now p b ≡ done (false, p)
unfolding bind_or_rotate
bind_or_rotate-own random now p b size own =
    let full : is_empty p.subscription.account_binding ≡ false = rw own (ground (arith, size)) in
    let same : bytes_eq p.subscription.account_binding b ≡ true = rw own (bytes_eq_refl b) in
    rw (full, same) refl

bound-Ensured :
    (x : Primitives) (draws : ℕ → Option Bytes) (p : PersistentState) (user b : Bytes)
    → KeySizes x draws
    → validate_subscription_generation p.subscription ≡ true
    → derive_account_binding x p user ≡ some b
    → p.subscription.account_binding ≡ b
    → Ensured x user p
unfolding ensure_subscription_account_binding Ensured
bound-Ensured x draws p user b z valid e own =
    let d = derive_account_binding-some x draws p user b z e in
    (d.2 own, λ random now. rw (d.0, valid, e) (bind_or_rotate-own random now p b d.1 own))

pub next_number : (g : ℕ) → suc g < 2 ^ 64 → u64 (suc g) ≢ 0
next_number g room = omega (arith, room)

pub bound-valid :
    (g : SubscriptionGeneration) (b : Bytes)
    → validate_subscription_generation g ≡ true
    → length b ≡ 32
    → validate_subscription_generation (record g { account_binding = b }) ≡ true
unfolding validate_subscription_generation
bound-valid g b h size = ground (arith, h, size)

pub next-valid :
    (x : Primitives) (random : ℕ → Option Bytes) (number now : ℕ) (next : SubscriptionGeneration)
    (b : Bytes)
    → KeySizes x random
    → number ≢ 0
    → now ≢ 0
    → length b ≡ 32
    → new_subscription_generation random number now ≡ done next
    → validate_subscription_generation (record next { account_binding = b }) ≡ true
unfolding validate_subscription_generation
next-valid x random number now next b z n t size e =
    let d = new_subscription_generation-done random number now next e in
    rw (d.2.2) (ground (arith, n, t, size, z.key_size 0 d.0 d.2.0, z.key_size 1 d.1 d.2.1))

Ensures-Ensured :
    (x : Primitives) (random : ℕ → Option Bytes) (now : ℕ) (user b : Bytes) (p : PersistentState)
    (c : Bool) (p' : PersistentState)
    → KeySizes x random
    → now ≢ 0
    → suc p.subscription.generation < 2 ^ 64
    → validate_subscription_generation p.subscription ≡ true
    → derive_account_binding x p user ≡ some b
    → Ensures random now b p c p'
    → Ensured x user p'
unfolding derive_account_binding
Ensures-Ensured x random now user b p c p' z t room valid e (first empty) =
    bound-Ensured x random (bound b p) user b z
      (bound-valid p.subscription b valid (derive_account_binding-some x random p user b z e).1) e
      refl
Ensures-Ensured x random now user b p c p' z t room valid e (same own) =
    bound-Ensured x random p user b z valid e own
Ensures-Ensured x random now user b p c p' z t room valid e (other strange next made) =
    bound-Ensured x random (rotated b p next) user b z
      (next-valid x random (u64 (suc p.subscription.generation)) now next b z
        (next_number p.subscription.generation room) t
        (derive_account_binding-some x random p user b z e).1 made)
      e refl

-- After the account was ensured the state is bound to it: the account matches, and ensuring it again,
-- at any time and with any draws, succeeds without a change. The codes and keys have 32 bytes, the
-- clock is not zero and the generation has a next.
pub ensure-again :
    (x : Primitives) (random : ℕ → Option Bytes) (user : Bytes) (now : ℕ) (p : PersistentState)
    (t : Bool × PersistentState) (random' : ℕ → Option Bytes) (later : ℕ)
    → KeySizes x random
    → now ≢ 0
    → suc p.subscription.generation < 2 ^ 64
    → ensure_subscription_account_binding x random user now p ≡ done t
    → (matches_account x t.1 user ≡ true)
      × (ensure_subscription_account_binding x random' user later t.1 ≡ done (false, t.1))
unfolding Ensured
ensure-again x random user now p t random' later z n room e =
    let d = ensure_subscription_account_binding-done x random user now p t e in
    let r = Ensures-Ensured x random now user d.1.0 p t.0 t.1 z n room d.0 d.1.1 d.1.2 in
    (r.0, r.1 random' later)
