-- ===== src/Web/Access/Throttle.antt =====
-- The abstract throttle: an attempt for every client, never forgotten, with no bound on their number. The
-- table implements it, except that it may turn away a client that has no attempt when it is full.
use kfadapter.Base.{
  ℕ, ◌≤◌, ◌≡◌, refl, sym, ◌∙◌, ap, Bool, true, not, ◌||◌, Option, none, some, if◌then◌else◌, arith,
  Bool-cases, inl, inr,
}
use kfadapter.Base.Bytes.{Bytes, bytes_eq}
use kfadapter.Base.Dict.{lookup}
use kfadapter.Base.Dict.Keys.{passing}
use kfadapter.Web.Access.{
  AccessAttempt, Attempts, Admission, Answer, Call, begins, finishes, no_attempt, idle, trim_access,
  begin_attempt, failed_attempt, attempt_or_new, second,
}
use kfadapter.Web.Access.Bounds.{IsBounded}
use kfadapter.Web.Access.Lookups.{live, lookup-trim_access}

abbrev pub Throttle : Type 0
Throttle = Bytes → AccessAttempt

-- An attempt whose window and block are over and that is not in flight counts as none.
abbrev pub settle : ℕ → AccessAttempt → AccessAttempt
settle now a = if idle now a then no_attempt else a

abbrev pub put : Bytes → AccessAttempt → Throttle → Throttle
put k a f j = if bytes_eq k j then a else f j

-- What a finished attempt becomes.
abbrev pub finish_attempt : ℕ → Bool → Bool → AccessAttempt → AccessAttempt
finish_attempt now successful counted a =
    if not a.in_flight
    then a
    else if successful || not counted
    then no_attempt
    else failed_attempt now a

pub data SpecStep (clock : ℕ → ℕ) (f : Throttle) : Call → Answer → Throttle → Type 0 where
  decided :
      (k : Bytes)
      → SpecStep clock f
          (begins k)
          (some (begin_attempt (clock 1) (settle (clock 0) (f k))).0)
          (put k (begin_attempt (clock 1) (settle (clock 0) (f k))).1 f)
  turned_away :
      (k : Bytes)
      → settle (clock 0) (f k) ≡ no_attempt
      → SpecStep clock f (begins k) (some (Admission.rate_limited second)) f
  finished :
      (k : Bytes) (successful counted : Bool)
      → SpecStep clock f
          (finishes k successful counted)
          none
          (put k (finish_attempt (clock 0) successful counted (f k)) f)

-- The table and the throttle agree on every client, from a time on.
abbrev pub Agrees : ℕ → Attempts → Throttle → Type 0
Agrees now m f = (k : Bytes) → settle now (attempt_or_new (lookup k m)) ≡ settle now (f k)

idle_later : (t now : ℕ) (a : AccessAttempt) → t ≤ now → idle t a ≡ true → idle now a ≡ true
idle_later t now a h e = ground arith

pub settle-no_attempt : (now : ℕ) → settle now no_attempt ≡ no_attempt
settle-no_attempt now = ground arith

settle-idle : (now : ℕ) (a : AccessAttempt) → idle now a ≡ true → settle now a ≡ no_attempt
settle-idle now a e = rw e refl

settle-settle : (t now : ℕ) (a : AccessAttempt) → t ≤ now → settle now (settle t a) ≡ settle now a
settle-settle t now a h = elim (Bool-cases (idle t a)) [
  | inl e ↦
      ap (settle now) (settle-idle t a e)
      ∙ settle-no_attempt now
      ∙ sym (settle-idle now a (idle_later t now a h e))
  | inr e ↦ rw e refl
]

pub settle_later :
    (t now : ℕ) (a b : AccessAttempt)
    → t ≤ now
    → settle t a ≡ settle t b
    → settle now a ≡ settle now b
settle_later t now a b h e =
    sym (settle-settle t now a h) ∙ ap (settle now) e ∙ settle-settle t now b h

pub Agrees-later :
    (t now : ℕ) (m : Attempts) (f : Throttle) → t ≤ now → Agrees t m f → Agrees now m f
Agrees-later t now m f h g k = settle_later t now (attempt_or_new (lookup k m)) (f k) h (g k)

pub settle-in_flight : (now : ℕ) (a : AccessAttempt) → a.in_flight ≡ true → settle now a ≡ a
settle-in_flight now a e = ground arith

-- What an entry that trimming may take is read as.
passing-live :
    (now : ℕ) (o : Option AccessAttempt)
    → attempt_or_new (passing (live now) o) ≡ settle now (attempt_or_new o)
passing-live now none = sym (settle-no_attempt now)
passing-live now (some a) = ground arith

pub attempt-trim_access :
    (now : ℕ) (k : Bytes) (m : Attempts)
    → IsBounded m
    → attempt_or_new (lookup k (trim_access now m)) ≡ settle now (attempt_or_new (lookup k m))
attempt-trim_access now k m b =
    ap attempt_or_new (lookup-trim_access now k m b) ∙ passing-live now (lookup k m)

pub trim_access-Agrees :
    (now : ℕ) (m : Attempts) (f : Throttle)
    → IsBounded m
    → Agrees now m f
    → Agrees now (trim_access now m) f
trim_access-Agrees now m f b g k =
    ap (settle now) (attempt-trim_access now k m b)
    ∙ settle-settle now now (attempt_or_new (lookup k m)) (omega arith)
    ∙ g k

-- Writing one client's attempt on both sides.
pub put-Agrees :
    (now : ℕ) (k : Bytes) (a : AccessAttempt) (m m' : Attempts) (f : Throttle)
    → ((j : Bytes)
        → settle now (attempt_or_new (lookup j m'))
          ≡ settle now (if bytes_eq k j then a else attempt_or_new (lookup j m)))
    → Agrees now m f
    → Agrees now m' (put k a f)
put-Agrees now k a m m' f w g j = elim (Bool-cases (bytes_eq k j)) [
  | inl same ↦ w j ∙ rw (same) refl
  | inr apart ↦ w j ∙ rw (apart) (g j)
]
