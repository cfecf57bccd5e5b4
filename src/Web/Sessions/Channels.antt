-- ===== src/Web/Sessions/Channels.antt =====
-- internal/web/security.go: the channels of sessions, counted, and the entries that pruning leaves.
use kfadapter.Base.{
  ℕ, zero, suc, ◌+◌, ◌-◌, ◌≤◌, ◌≡◌, refl, true, false, not, List, [], ◌∷◌, some, length,
  if◌then◌else◌, ◌==◌, arith, Bool-cases, inl, inr,
}
use kfadapter.Base.Bytes.{Bytes, bytes_eq, bytes_eq→eq}
use kfadapter.Base.Dict.{lookup, insert, delete, keep}
use kfadapter.Base.Dict.Keys.{has_key, unique_keys, unique_keys-keep, has_key-keep}
use kfadapter.Web.Sessions.{
  BrowserSession, LoginAttempt, keep_active, evict_logins, trim_logins, login_idle,
}

abbrev pub once : ℕ → ℕ → ℕ
once d e = if e == d then 1 else 0

-- How many sessions of a map have the channel `d`.
abbrev pub count : ℕ → List (Bytes × BrowserSession) → ℕ
count d [] = 0
count d ((k, b) ∷ m) = once d b.done + count d m

abbrev pub occurs : ℕ → List ℕ → ℕ
occurs d [] = 0
occurs d (x ∷ xs) = once d x + occurs d xs

delete_absent :
    (k : Bytes) (m : List (Bytes × BrowserSession)) → has_key k m ≡ false → delete k m ≡ m
unfolding delete
delete_absent k [] h = refl
delete_absent k ((j, b) ∷ m) h = ground (arith, delete_absent k m)

pub count-delete :
    (d : ℕ) (k : Bytes) (b : BrowserSession) (m : List (Bytes × BrowserSession))
    → unique_keys m ≡ true
    → lookup k m ≡ some b
    → count d (delete k m) + once d b.done ≡ count d m
unfolding lookup delete
count-delete d k b [] u e = ground arith
count-delete d k b ((j, w) ∷ m) u e = elim (Bool-cases (bytes_eq j k)) [
  | inl same ↦
      let gone : delete k m ≡ m = delete_absent k m (ground (arith, bytes_eq→eq j k same)) in
      let own : w ≡ b = ground arith in rw (same, gone, own) (omega arith)
  | inr apart ↦ ground (arith, count-delete d k b m)
]

pub count-insert :
    (d : ℕ) (k : Bytes) (b : BrowserSession) (m : List (Bytes × BrowserSession))
    → count d (insert k b m) ≤ once d b.done + count d m
unfolding insert
count-insert d k b [] = omega arith
count-insert d k b ((j, w) ∷ m) = elim (Bool-cases (bytes_eq j k)) [
  | inl same ↦ rw same (omega arith)
  | inr apart ↦ rw apart (omega (arith, count-insert d k b m))
]

pub has_key-keep_active :
    (k : Bytes) (active : List (Bytes × BrowserSession)) (m : List (Bytes × LoginAttempt))
    → has_key k (keep_active active m) ≡ true
    → (has_key k m ≡ true) × (has_key k active ≡ true)
unfolding keep_active
has_key-keep_active k active [] h = ground arith
has_key-keep_active k active ((j, a) ∷ m) h =
    ground (arith, bytes_eq→eq j k, has_key-keep_active k active m)

pub unique_keys-keep_active :
    (active : List (Bytes × BrowserSession)) (m : List (Bytes × LoginAttempt))
    → unique_keys m ≡ true
    → unique_keys (keep_active active m) ≡ true
unfolding keep_active
unique_keys-keep_active active [] h = refl
unique_keys-keep_active active ((j, a) ∷ m) h =
    ground (arith, has_key-keep_active j active m, unique_keys-keep_active active m)

pub has_key-evict_logins :
    (k : Bytes) (n : ℕ) (m : List (Bytes × LoginAttempt))
    → has_key k (evict_logins n m) ≡ true
    → has_key k m ≡ true
unfolding evict_logins
has_key-evict_logins k n [] h = h
has_key-evict_logins k zero (x ∷ m) h = h
has_key-evict_logins k (suc n) ((j, a) ∷ m) h =
    ground (arith, has_key-evict_logins k (suc n) m, has_key-evict_logins k n m)

pub unique_keys-evict_logins :
    (n : ℕ) (m : List (Bytes × LoginAttempt))
    → unique_keys m ≡ true
    → unique_keys (evict_logins n m) ≡ true
unfolding evict_logins
unique_keys-evict_logins n [] h = h
unique_keys-evict_logins zero (x ∷ m) h = h
unique_keys-evict_logins (suc n) ((j, a) ∷ m) h = ground (
  arith,
  has_key-evict_logins j (suc n) m,
  unique_keys-evict_logins (suc n) m,
  unique_keys-evict_logins n m,
)

pub has_key-trim_logins :
    (k : Bytes) (now max : ℕ) (m : List (Bytes × LoginAttempt))
    → has_key k (trim_logins now max m) ≡ true
    → has_key k m ≡ true
unfolding trim_logins
has_key-trim_logins k now max m h =
    let live = keep (λ (a : LoginAttempt). not (login_idle now a)) m in
    has_key-keep (λ (a : LoginAttempt). not (login_idle now a)) k m
      (has_key-evict_logins k (length live - max) live h)

pub unique_keys-trim_logins :
    (now max : ℕ) (m : List (Bytes × LoginAttempt))
    → unique_keys m ≡ true
    → unique_keys (trim_logins now max m) ≡ true
unfolding trim_logins
unique_keys-trim_logins now max m h =
    let live = keep (λ (a : LoginAttempt). not (login_idle now a)) m in
    unique_keys-evict_logins (length live - max) live
      (unique_keys-keep (λ (a : LoginAttempt). not (login_idle now a)) m h)
