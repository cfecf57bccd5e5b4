-- ===== src/Web/Access/Bounds.antt =====
-- The table has one entry for a client and stays within its bound, so nothing is evicted but idle
-- attempts.
use kfadapter.Base.{
  ℕ, ◌≤◌, ◌<◌, ◌≡◌, refl, sym, subst, Bool, true, not, ◌||◌, [], Option, none, some, length, leb,
  arith, Bool-cases, inl, inr, le→leb,
}
use kfadapter.Base.Bytes.{Bytes}
use kfadapter.Base.Dict.{lookup, insert, delete, keep, length-insert}
use kfadapter.Base.Dict.Keys.{
  has_key, unique_keys, unique_keys-insert, unique_keys-delete, unique_keys-keep,
  length-insert_present, length-keep, length-delete, lookup-some-has_key,
}
use kfadapter.Web.Access.{
  AccessAttempt, Attempts, Admission, Call, begins, finishes, no_attempt, idle, trim_access,
  begin_attempt, store_admitted, begin_tracked, begin_access, failed_attempt, finish_tracked,
  finish_access, step, max_attempts,
}

pub record IsBounded (m : Attempts) : Type 0 where
  pub one_entry : unique_keys m ≡ true
  pub within_bound : length m ≤ max_attempts

pub empty-IsBounded : IsBounded []
empty-IsBounded = record { one_entry = refl; within_bound = omega arith }

-- Within the bound, trimming takes the idle attempts alone.
pub trim_access-keep :
    (now : ℕ) (m : Attempts)
    → length m ≤ max_attempts
    → trim_access now m ≡ keep (λ a. not (idle now a)) m
unfolding trim_access
trim_access-keep now m h =
    let small : leb (length (keep (λ a. not (idle now a)) m)) max_attempts ≡ true =
      le→leb _ _ (omega (arith, h, length-keep (λ (a : AccessAttempt). not (idle now a)) m)) in
    rw small refl

pub trim_access-IsBounded : (now : ℕ) (m : Attempts) → IsBounded m → IsBounded (trim_access now m)
trim_access-IsBounded now m b =
    subst IsBounded (sym (trim_access-keep now m b.within_bound)) (record {
      one_entry = unique_keys-keep (λ (a : AccessAttempt). not (idle now a)) m b.one_entry;
      within_bound =
          omega (arith, b.within_bound, length-keep (λ (a : AccessAttempt). not (idle now a)) m);
    })

pub insert-IsBounded :
    (k : Bytes) (a : AccessAttempt) (m : Attempts)
    → has_key k m ≡ true
    → IsBounded m
    → IsBounded (insert k a m)
insert-IsBounded k a m there b = record {
  one_entry = unique_keys-insert k a m b.one_entry;
  within_bound = omega (arith, b.within_bound, length-insert_present k a m there);
}

insert_new-IsBounded :
    (k : Bytes) (a : AccessAttempt) (m : Attempts)
    → length m < max_attempts
    → IsBounded m
    → IsBounded (insert k a m)
insert_new-IsBounded k a m room b = record {
  one_entry = unique_keys-insert k a m b.one_entry;
  within_bound = omega (arith, room, length-insert k a m);
}

store_admitted-IsBounded :
    (k : Bytes) (m : Attempts) (r : Admission × AccessAttempt)
    → IsBounded m
    → IsBounded (insert k r.1 m)
    → IsBounded (store_admitted k m r).1
unfolding store_admitted
store_admitted-IsBounded k m (Admission.admitted, a) b h = h
store_admitted-IsBounded k m (Admission.busy, a) b h = b
store_admitted-IsBounded k m (Admission.rate_limited d, a) b h = b

begin_tracked-IsBounded :
    (now : ℕ) (k : Bytes) (m : Attempts) (o : Option AccessAttempt)
    → lookup k m ≡ o
    → IsBounded m
    → IsBounded (begin_tracked now k m o).1
unfolding begin_tracked
begin_tracked-IsBounded now k m (some a) e b =
    store_admitted-IsBounded k m (begin_attempt now a) b
      (insert-IsBounded k (begin_attempt now a).1 m (lookup-some-has_key k m a e) b)
begin_tracked-IsBounded now k m none e b = elim (Bool-cases (leb max_attempts (length m))) [
  | inl full ↦ rw full b
  | inr room ↦
      let stored : IsBounded (store_admitted k m (begin_attempt now no_attempt)).1 =
        store_admitted-IsBounded k m (begin_attempt now no_attempt) b
          (insert_new-IsBounded k (begin_attempt now no_attempt).1 m (ground arith) b) in
      rw room stored
]

pub begin_access-IsBounded :
    (clock : ℕ → ℕ) (k : Bytes) (m : Attempts) → IsBounded m → IsBounded (begin_access clock k m).1
unfolding begin_access
begin_access-IsBounded clock k m b =
    begin_tracked-IsBounded (clock 1) k (trim_access (clock 0) m)
      (lookup k (trim_access (clock 0) m)) refl (trim_access-IsBounded (clock 0) m b)

delete-IsBounded : (k : Bytes) (m : Attempts) → IsBounded m → IsBounded (delete k m)
delete-IsBounded k m b = record {
  one_entry = unique_keys-delete k m b.one_entry;
  within_bound = omega (arith, b.within_bound, length-delete k m);
}

finish_tracked-IsBounded :
    (clock : ℕ → ℕ) (k : Bytes) (successful counted : Bool) (m : Attempts)
    (o : Option AccessAttempt)
    → lookup k m ≡ o
    → IsBounded m
    → IsBounded (finish_tracked clock k successful counted m o)
unfolding finish_tracked
finish_tracked-IsBounded clock k successful counted m none e b = b
finish_tracked-IsBounded clock k successful counted m (some a) e b = elim (Bool-cases a.in_flight) [
  | inr f ↦ rw f b
  | inl f ↦ elim (Bool-cases (successful || not counted)) [
    | inl g ↦ rw (f, g) (delete-IsBounded k m b)
    | inr g ↦
        rw (f, g)
          (trim_access-IsBounded (clock 1) (insert k (failed_attempt (clock 0) a) m)
            (insert-IsBounded k (failed_attempt (clock 0) a) m (lookup-some-has_key k m a e) b))
  ]
]

pub step-IsBounded :
    (clock : ℕ → ℕ) (c : Call) (m : Attempts) → IsBounded m → IsBounded (step clock c m).1
unfolding step finish_access
step-IsBounded clock (begins k) m b = begin_access-IsBounded clock k m b
step-IsBounded clock (finishes k successful counted) m b =
    finish_tracked-IsBounded clock k successful counted m (lookup k m) refl b
