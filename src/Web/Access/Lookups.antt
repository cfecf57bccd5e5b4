-- ===== src/Web/Access/Lookups.antt =====
-- What the table holds for a client after trimming and after an attempt.
use kfadapter.Base.{
  ℕ, ◌≡◌, refl, ◌∙◌, ap, Bool, true, false, not, ◌&&◌, Option, none, some, length, if◌then◌else◌,
  leb, arith,
}
use kfadapter.Base.Bytes.{Bytes, bytes_eq}
use kfadapter.Base.Dict.{lookup, lookup-insert}
use kfadapter.Base.Dict.Keys.{passing, lookup-keep}
use kfadapter.Web.Access.{
  AccessAttempt, Attempts, Admission, idle, trim_access, begin_attempt, store_admitted,
  begin_tracked, max_attempts, is_admitted, attempt_or_new, second,
}
use kfadapter.Web.Access.Bounds.{IsBounded, trim_access-keep}

abbrev pub live : ℕ → AccessAttempt → Bool
live now a = not (idle now a)

pub lookup-trim_access :
    (now : ℕ) (k : Bytes) (m : Attempts)
    → IsBounded m
    → lookup k (trim_access now m) ≡ passing (live now) (lookup k m)
lookup-trim_access now k m b =
    ap (lookup k) (trim_access-keep now m b.within_bound) ∙ lookup-keep (live now) k m b.one_entry

pub lookup-store_admitted :
    (k j : Bytes) (m : Attempts) (r : Admission × AccessAttempt)
    → lookup j (store_admitted k m r).1
      ≡ (if is_admitted r.0 && bytes_eq k j then some r.1 else lookup j m)
unfolding store_admitted
lookup-store_admitted k j m (Admission.admitted, a) = lookup-insert k j a m
lookup-store_admitted k j m (Admission.busy, a) = refl
lookup-store_admitted k j m (Admission.rate_limited d, a) = refl

pub store_admitted-answer :
    (k : Bytes) (m : Attempts) (r : Admission × AccessAttempt) → (store_admitted k m r).0 ≡ r.0
unfolding store_admitted
store_admitted-answer k m (q, a) = refl

-- A client that the table does not hold finds it full.
abbrev pub no_room : Attempts → Option AccessAttempt → Bool
no_room m none = leb max_attempts (length m)
no_room m (some a) = false

pub begin_tracked-no_room :
    (now : ℕ) (k : Bytes) (m : Attempts) (o : Option AccessAttempt)
    → no_room m o ≡ true
    → (o ≡ none) × (begin_tracked now k m o ≡ (Admission.rate_limited second, m))
unfolding begin_tracked
begin_tracked-no_room now k m none e = (refl, rw e refl)
begin_tracked-no_room now k m (some a) e = ground arith

pub begin_tracked-room :
    (now : ℕ) (k : Bytes) (m : Attempts) (o : Option AccessAttempt)
    → no_room m o ≡ false
    → begin_tracked now k m o ≡ store_admitted k m (begin_attempt now (attempt_or_new o))
unfolding begin_tracked
begin_tracked-room now k m none e = rw e refl
begin_tracked-room now k m (some a) e = refl
