-- ===== src/Base/Dict.antt =====
-- Go maps with string keys: association lists, read at the first entry for a key.
pub mod Keys
use kfadapter.Base.{
  suc, ◌≤◌, ◌≡◌, refl, Bool, true, false, List, [], ◌∷◌, Option, none, some, length, if◌then◌else◌,
  arith, any, inl, inr, Bool-cases,
}
use kfadapter.Base.Bytes.{Bytes, bytes_eq, bytes_eq_refl, bytes_eq→eq}
use mathlib.Core.List.{Mem, mem-cons, mem-cons_self, mem-cons_of_mem, not-mem-nil}
use mathlib.Core.Logic.Or
use mathlib.Core.Bool.{Bool-set}

-- Whether a set of texts, kept as a list, holds a text.
abbrev pub member : Bytes → List Bytes → Bool
member x s = any (bytes_eq x) s

module _ {ℓ} {V : Type ℓ} where
  unfoldable pub lookup : Bytes → List (Bytes × V) → Option V
  lookup k [] = none
  lookup k ((j, v) ∷ m) = if bytes_eq j k then some v else lookup k m

  -- `m[k] = v`
  unfoldable pub insert : Bytes → V → List (Bytes × V) → List (Bytes × V)
  insert k v [] = (k, v) ∷ []
  insert k v ((j, w) ∷ m) = if bytes_eq j k then (k, v) ∷ m else (j, w) ∷ insert k v m

  -- `delete(m, k)`
  unfoldable pub delete : Bytes → List (Bytes × V) → List (Bytes × V)
  delete k [] = []
  delete k ((j, v) ∷ m) = if bytes_eq j k then delete k m else (j, v) ∷ delete k m

  -- A range that deletes the entries that fail a test.
  unfoldable pub keep : (V → Bool) → List (Bytes × V) → List (Bytes × V)
  keep p [] = []
  keep p ((j, v) ∷ m) = if p v then (j, v) ∷ keep p m else keep p m

  pub lookup-insert :
      (k j : Bytes) (v : V) (m : List (Bytes × V))
      → lookup j (insert k v m) ≡ (if bytes_eq k j then some v else lookup j m)
  unfolding lookup insert
  lookup-insert k j v [] = refl
  lookup-insert k j v ((i, w) ∷ m) = ground (
    arith,
    bytes_eq→eq i k,
    bytes_eq→eq k j,
    bytes_eq→eq i j,
    bytes_eq_refl k,
    lookup-insert k j v m,
  )

  pub lookup-insert_self :
      (k : Bytes) (v : V) (m : List (Bytes × V)) → lookup k (insert k v m) ≡ some v
  lookup-insert_self k v m = rw (lookup-insert k k v m, bytes_eq_refl k)

  pub length-insert :
      (k : Bytes) (v : V) (m : List (Bytes × V)) → length (insert k v m) ≤ suc (length m)
  unfolding insert
  length-insert k v [] = omega arith
  length-insert k v ((i, w) ∷ m) = ground (arith, length-insert k v m)

-- The Boolean test decides the library's membership.
pub member→mem : (x : Bytes) (s : List Bytes) → member x s ≡ true → Mem x s
member→mem x [] h = ground arith
member→mem x (y ∷ s) h = elim (Bool-cases (bytes_eq x y)) [
  | inl e ↦ rw (← bytes_eq→eq x y e) mem-cons_self
  | inr e ↦ mem-cons_of_mem y (member→mem x s (ground arith))
]

pub mem→member : (x : Bytes) (s : List Bytes) → Mem x s → member x s ≡ true
mem→member x [] h = absurd (not-mem-nil h)
mem→member x (y ∷ s) h =
    Or.elim (Bool-set _ _) (mem-cons.0 h) (λ e. rw (← e) (ground (arith, bytes_eq_refl x)))
      (λ t. ground (arith, mem→member x s t))

pub not-member→not-mem : (x : Bytes) (s : List Bytes) → member x s ≡ false → ¬ Mem x s
not-member→not-mem x s h m = ground (arith, mem→member x s m)

pub not-mem→not-member : (x : Bytes) (s : List Bytes) → ¬ Mem x s → member x s ≡ false
not-mem→not-member x s h = elim (Bool-cases (member x s)) [
  | inl e ↦ absurd (h (member→mem x s e))
  | inr e ↦ e
]
