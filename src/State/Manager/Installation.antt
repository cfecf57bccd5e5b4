-- ===== src/State/Manager/Installation.antt =====
-- Installing a subscription generation: who may follow whom, and taking it back.
use kfadapter.Base.{
  ℕ, suc, ◌≡◌, ◌≢◌, ◌≤◌, refl, true, false, [], ◌∷◌, Option, none, some, arith, ◌⊎◌, Bool-cases,
  inl, inr, ==_refl, is_empty,
}
use kfadapter.Base.Bytes.{Bytes, bytes_eq→eq, bytes_eq_refl}
use kfadapter.State.Types.{authenticating, syncing, ready, expired, signed_out, RuntimeSnapshot, ok}
use kfadapter.State.Sessions.{user_id, sessions_valid-wiped}
use kfadapter.State.Snapshot.{session_usable}
use kfadapter.State.Binding.{
  SubscriptionGeneration, same_subscription_credentials, same_subscription_generation,
  account_binding_for, matches_account_binding→eq, rotated_subscription_material,
}
use kfadapter.State.Manager.{Manager, u64}
use kfadapter.State.Manager.Trace.{HasNoSession}
use kfadapter.State.Manager.Setup.{
  Rollback, follows, install_subscription_generation, rollback, new_manager_with_subscription,
}

-- What an installed candidate has to do with the subscription before it.
pub record Follows (current candidate : SubscriptionGeneration) : Type 0 where
  pub first_or_next :
      (current.generation ≡ 0)
      ⊎ ((candidate.generation ≡ current.generation)
            × (candidate.selector_key ≡ current.selector_key)
            × (candidate.proxy_auth_key ≡ current.proxy_auth_key)
            × ((current.account_binding ≡ [])
                ⊎ (current.account_binding ≡ candidate.account_binding))
          ⊎ (candidate.generation ≡ u64 (suc current.generation))
            × (candidate.selector_key ≢ current.selector_key)
            × (candidate.proxy_auth_key ≢ current.proxy_auth_key)
            × (candidate.account_binding ≢ current.account_binding))

pub is_empty→eq : (xs : Bytes) → is_empty xs ≡ true → xs ≡ []
is_empty→eq [] h = refl
is_empty→eq (x ∷ xs) h = cc

follows→Follows :
    (current candidate : SubscriptionGeneration)
    → follows current candidate ≡ true
    → Follows current candidate
unfolding follows same_subscription_credentials rotated_subscription_material
follows→Follows current candidate h = record {
  first_or_next = ground (
    arith,
    is_empty→eq current.account_binding,
    bytes_eq→eq current.selector_key candidate.selector_key,
    bytes_eq→eq current.proxy_auth_key candidate.proxy_auth_key,
    bytes_eq→eq current.account_binding candidate.account_binding,
    bytes_eq_refl current.selector_key,
    bytes_eq_refl current.proxy_auth_key,
    bytes_eq_refl current.account_binding,
  );
}

-- An installation succeeds only while an authentication or a refresh is under way and for a candidate
-- bound to the given account. On an existing generation it keeps the generation and both keys for the
-- same or the first account, and takes the next generation and two new keys for another account. It
-- changes the subscription alone, and the rollback remembers the one before.
pub install_subscription_generation-ok :
    (hmac : Bytes → Bytes → Bytes) (candidate : SubscriptionGeneration) (user : Bytes)
    (m m' : Manager) (r : Rollback)
    → install_subscription_generation hmac candidate user m ≡ ok (m', r)
    → ((m.state ≡ authenticating) ⊎ (m.state ≡ syncing))
      × (account_binding_for hmac m.account_binding_key user ≡ some candidate.account_binding)
      × Follows m.subscription candidate
      × (m' ≡ record m { subscription = candidate })
      × (r ≡ record { candidate = candidate; previous = m.subscription; fired = false })
unfolding install_subscription_generation
install_subscription_generation-ok hmac candidate user m m' r h = (
  ground arith,
  matches_account_binding→eq hmac candidate.account_binding m.account_binding_key user
      (ground arith),
  follows→Follows m.subscription candidate (ground arith),
  ground arith,
  ground arith,
)

-- Calling the rollback of an installation, with nothing installed in between, restores the manager;
-- calling it again does nothing.
pub rollback-install :
    (hmac : Bytes → Bytes → Bytes) (candidate : SubscriptionGeneration) (user : Bytes)
    (m m' : Manager) (r : Rollback)
    → install_subscription_generation hmac candidate user m ≡ ok (m', r)
    → let (r', m'') = rollback r m' in (m'' ≡ m) × (rollback r' m'' ≡ (r', m''))
unfolding install_subscription_generation rollback same_subscription_generation
rollback-install hmac candidate user m m' r h = ground (
  arith,
  bytes_eq_refl candidate.selector_key,
  bytes_eq_refl candidate.proxy_auth_key,
  bytes_eq_refl candidate.account_binding,
  ==_refl candidate.generation,
)

usable→born : (s : RuntimeSnapshot) (now : ℕ) → session_usable s now ≡ true → s.created_at ≤ now
unfolding session_usable
usable→born s now h = ground arith

-- A manager that is built from a persisted snapshot starts ready only if the snapshot's sessions are
-- usable now and belong to the bound account; in every other state it starts with no usable session.
pub new_manager-safe :
    (hmac : Bytes → Bytes → Bytes) (clock : ℕ → ℕ) (initial : Option RuntimeSnapshot)
    (subscription : SubscriptionGeneration) (key : Bytes) (m : Manager)
    → new_manager_with_subscription hmac clock initial subscription key ≡ ok m
    → (m.active ≡ none)
      × (((m.state ≡ ready)
            × ((s : RuntimeSnapshot) × (initial ≡ some s)
                × (m.runtime ≡ some s)
                × (session_usable s (clock 0) ≡ true)
                × (account_binding_for hmac key (user_id s.sessions)
                    ≡ some subscription.account_binding)))
          ⊎ (((m.state ≡ expired) ⊎ (m.state ≡ signed_out)) × HasNoSession m.runtime))
unfolding new_manager_with_subscription
new_manager-safe hmac clock none subscription key m h = ground arith
new_manager-safe hmac clock (some s) subscription key m h =
    elim (Bool-cases (session_usable s (clock 0))) [
      | inl e ↦
          let born = usable→born s (clock 0) e in
          (
            ground arith,
            inl (
              ground arith,
              (
                s,
                refl,
                ground arith,
                e,
                matches_account_binding→eq hmac subscription.account_binding key
                    (user_id s.sessions) (ground arith),
              ),
            ),
          )
      | inr e ↦ (ground arith, inr (ground arith, ground (arith, sessions_valid-wiped)))
    ]
