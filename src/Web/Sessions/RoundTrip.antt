-- ===== src/Web/Sessions/RoundTrip.antt =====
-- A session that `create` gave out is found until it expires.
use kfadapter.Base.{
  ℕ, zero, suc, ◌+◌, ◌*◌, ◌<◌, ◌≡◌, refl, Bool, true, false, List, [], Option, none, some, ltb,
  is_empty, arith, Bool-cases, inl, inr,
}
use kfadapter.Base.Bytes.{Bytes}
use kfadapter.Base.Dict.{lookup, lookup-insert_self}
use kfadapter.Web.Sessions.{BrowserSession, Store, expired}
use kfadapter.Web.Sessions.Calls.{
  Reservation, limit_reached, collision, reserved, reserve, settle_create, valid, valid_found,
}
use kfadapter.Web.Sessions.Calls.{
  Outcome, Saves, after_reservation, create_round, created, finish_create, create_rounds, create,
}

-- A created session is in the store.
abbrev Stored : Bytes → BrowserSession → Outcome → Type 0
Stored token b r = r.0 ≡ created token b → lookup token r.2.sessions ≡ some b

created-injective :
    (t token : Bytes) (a b : BrowserSession) → created t a ≡ created token b → (t ≡ token) × (a ≡ b)
created-injective t token a b e = (ground arith, ground arith)

finish_create-Stored :
    (clock : ℕ → ℕ) (t : Bytes) (a : BrowserSession) (saved : Bool) (deleted : List Bytes)
    (s : Store) (token : Bytes) (b : BrowserSession)
    → Stored token b (finish_create clock t a saved deleted s)
unfolding finish_create settle_create
finish_create-Stored clock t a false deleted s token b e = ground arith
finish_create-Stored clock t a true deleted s token b e =
    elim (Bool-cases (ltb (clock 0) a.expires_at)) [
      | inr late ↦ absurd (ground (arith, rw late at e))
      | inl early ↦
          let same = created-injective t token a b (rw early at e) in
          rw (early, same.0, same.1) (lookup-insert_self token b s.sessions)
    ]

after_reservation-Stored :
    (again : Store → Outcome) (clock : ℕ → ℕ) (save : Saves) (t csrf : Bytes) (r : Reservation)
    (deleted : List Bytes) (s : Store) (token : Bytes) (b : BrowserSession)
    → ((x : Store) → Stored token b (again x))
    → Stored token b (after_reservation again clock save t csrf r deleted s)
unfolding after_reservation
after_reservation-Stored again clock save t csrf limit_reached deleted s token b h e = ground arith
after_reservation-Stored again clock save t csrf collision deleted s token b h e = h s e
after_reservation-Stored again clock save t csrf (reserved a) deleted s token b h e =
    finish_create-Stored (λ k. clock (4 + k)) t a (save t csrf a.expires_at s.max) deleted s token b
      e

create_round-Stored :
    (again : Store → Outcome) (clock : ℕ → ℕ) (save : Saves) (t csrf : Option Bytes) (s : Store)
    (token : Bytes) (b : BrowserSession)
    → ((x : Store) → Stored token b (again x))
    → Stored token b (create_round again clock save t csrf s)
unfolding create_round
create_round-Stored again clock save none csrf s token b h e = ground arith
create_round-Stored again clock save (some t) none s token b h e = ground arith
create_round-Stored again clock save (some t) (some csrf) s token b h e =
    let r = reserve clock t csrf s in
    after_reservation-Stored again clock save t csrf r.0 r.1 r.2 token b h e

create_rounds-Stored :
    (n i : ℕ) (random : ℕ → Option Bytes) (clock : ℕ → ℕ → ℕ) (save : Saves) (s : Store)
    (token : Bytes) (b : BrowserSession)
    → Stored token b (create_rounds n i random clock save s)
unfolding create_rounds
create_rounds-Stored zero i random clock save s token b e = ground arith
create_rounds-Stored (suc n) i random clock save s token b e =
    create_round-Stored (λ x. create_rounds n (suc i) random clock save x) (clock i) save
      (random (2 * i)) (random (suc (2 * i))) s token b
      (λ x. create_rounds-Stored n (suc i) random clock save x token b) e

-- A session that `create` gave out is found under its token, with the store as it is, by any call
-- whose clock is before its expiry and whose token is not empty.
pub valid-create :
    (random : ℕ → Option Bytes) (clock : ℕ → ℕ → ℕ) (save : Saves) (s : Store) (token : Bytes)
    (b : BrowserSession) (later : ℕ → ℕ)
    → (create random clock save s).0 ≡ created token b
    → is_empty token ≡ false
    → later 0 < b.expires_at
    → valid later token (create random clock save s).2
      ≡ (some b, [], (create random clock save s).2)
unfolding create valid valid_found
valid-create random clock save s token b later e nonempty early =
    let found : lookup token (create_rounds 4 0 random clock save s).2.sessions ≡ some b =
      create_rounds-Stored 4 0 random clock save s token b e in
    let new : expired (later 0) b ≡ false = ground arith in rw (nonempty, found, new) refl
