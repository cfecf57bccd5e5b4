-- ===== src/Base/Dict/Keys.antt =====
-- The keys of a map: deletion, filtering and size.
use kfadapter.Base.{
  suc, ◌≤◌, ◌≡◌, refl, Bool, true, false, not, ◌&&◌, ◌||◌, List, [], ◌∷◌, Option, none, some,
  length, if◌then◌else◌, arith, Bool-cases, inl, inr,
}
use kfadapter.Base.Bytes.{Bytes, bytes_eq, bytes_eq_refl, bytes_eq→eq}
use kfadapter.Base.Dict.{lookup, insert, delete, keep}

pub bytes_eq_sym : (a b : Bytes) → bytes_eq a b ≡ bytes_eq b a
bytes_eq_sym a b =
    ground (arith, bytes_eq→eq a b, bytes_eq→eq b a, bytes_eq_refl a, bytes_eq_refl b)

module _ {ℓ} {V : Type ℓ} where
  abbrev pub has_key : Bytes → List (Bytes × V) → Bool
  has_key k [] = false
  has_key k ((j, v) ∷ m) = bytes_eq j k || has_key k m

  -- No key twice, as in a map.
  abbrev pub unique_keys : List (Bytes × V) → Bool
  unique_keys [] = true
  unique_keys ((j, v) ∷ m) = not (has_key j m) && unique_keys m

  pub lookup-delete :
      (k j : Bytes) (m : List (Bytes × V))
      → lookup j (delete k m) ≡ (if bytes_eq k j then none else lookup j m)
  unfolding lookup delete
  lookup-delete k j [] = ground arith
  lookup-delete k j ((i, w) ∷ m) = ground (
    arith,
    bytes_eq→eq i k,
    bytes_eq→eq k j,
    bytes_eq→eq i j,
    bytes_eq_refl j,
    lookup-delete k j m,
  )

  pub lookup-has_key : (k : Bytes) (m : List (Bytes × V)) → has_key k m ≡ false → lookup k m ≡ none
  unfolding lookup
  lookup-has_key k [] h = refl
  lookup-has_key k ((j, v) ∷ m) h = ground (arith, lookup-has_key k m)

  pub lookup-some-has_key :
      (k : Bytes) (m : List (Bytes × V)) (v : V) → lookup k m ≡ some v → has_key k m ≡ true
  unfolding lookup
  lookup-some-has_key k [] v h = ground arith
  lookup-some-has_key k ((j, w) ∷ m) v h = ground (arith, lookup-some-has_key k m v)

  pub lookup-none-has_key :
      (k : Bytes) (m : List (Bytes × V)) → lookup k m ≡ none → has_key k m ≡ false
  unfolding lookup
  lookup-none-has_key k [] h = refl
  lookup-none-has_key k ((j, w) ∷ m) h = ground (arith, lookup-none-has_key k m)

  pub has_key-insert :
      (k j : Bytes) (v : V) (m : List (Bytes × V))
      → has_key j (insert k v m) ≡ (bytes_eq k j || has_key j m)
  unfolding insert
  has_key-insert k j v [] = refl
  has_key-insert k j v ((i, w) ∷ m) = ground (arith, bytes_eq→eq i k, has_key-insert k j v m)

  pub has_key-delete :
      (k j : Bytes) (m : List (Bytes × V))
      → has_key j (delete k m) ≡ (not (bytes_eq k j) && has_key j m)
  unfolding delete
  has_key-delete k j [] = ground arith
  has_key-delete k j ((i, w) ∷ m) = ground (
    arith,
    bytes_eq→eq i k,
    bytes_eq→eq k j,
    bytes_eq→eq i j,
    bytes_eq_refl j,
    has_key-delete k j m,
  )

  pub has_key-keep :
      (p : V → Bool) (k : Bytes) (m : List (Bytes × V))
      → has_key k (keep p m) ≡ true
      → has_key k m ≡ true
  unfolding keep
  has_key-keep p k [] h = h
  has_key-keep p k ((j, v) ∷ m) h = ground (arith, has_key-keep p k m)

  pub unique_keys-insert :
      (k : Bytes) (v : V) (m : List (Bytes × V))
      → unique_keys m ≡ true
      → unique_keys (insert k v m) ≡ true
  unfolding insert
  unique_keys-insert k v [] h = refl
  unique_keys-insert k v ((i, w) ∷ m) h =
      ground
        (arith, bytes_eq→eq i k, bytes_eq_sym i k, has_key-insert k i v m, unique_keys-insert k v m)

  pub unique_keys-delete :
      (k : Bytes) (m : List (Bytes × V)) → unique_keys m ≡ true → unique_keys (delete k m) ≡ true
  unfolding delete
  unique_keys-delete k [] h = refl
  unique_keys-delete k ((i, w) ∷ m) h = ground (arith, has_key-delete k i m, unique_keys-delete k m)

  pub unique_keys-keep :
      (p : V → Bool) (m : List (Bytes × V)) → unique_keys m ≡ true → unique_keys (keep p m) ≡ true
  unfolding keep
  unique_keys-keep p [] h = refl
  unique_keys-keep p ((i, w) ∷ m) h = ground (arith, has_key-keep p i m, unique_keys-keep p m)

  -- What a map holds under a key after a range that deletes.
  abbrev pub passing : (V → Bool) → Option V → Option V
  passing p none = none
  passing p (some v) = if p v then some v else none

  pub lookup-keep :
      (p : V → Bool) (k : Bytes) (m : List (Bytes × V))
      → unique_keys m ≡ true
      → lookup k (keep p m) ≡ passing p (lookup k m)
  unfolding keep lookup
  lookup-keep p k [] h = refl
  lookup-keep p k ((j, v) ∷ m) h = elim (Bool-cases (bytes_eq j k)) [
    | inl e ↦ ground (arith, bytes_eq→eq j k, lookup-has_key k m, lookup-keep p k m)
    | inr e ↦ ground (arith, lookup-keep p k m)
  ]

  pub length-delete : (k : Bytes) (m : List (Bytes × V)) → length (delete k m) ≤ length m
  unfolding delete
  length-delete k [] = omega arith
  length-delete k ((j, v) ∷ m) = ground (arith, length-delete k m)

  pub length-keep : (p : V → Bool) (m : List (Bytes × V)) → length (keep p m) ≤ length m
  unfolding keep
  length-keep p [] = omega arith
  length-keep p ((j, v) ∷ m) = ground (arith, length-keep p m)

  pub length-insert_present :
      (k : Bytes) (v : V) (m : List (Bytes × V))
      → has_key k m ≡ true
      → length (insert k v m) ≡ length m
  unfolding insert
  length-insert_present k v [] h = ground arith
  length-insert_present k v ((j, w) ∷ m) h = ground (arith, length-insert_present k v m)

  pub length-delete_present :
      (k : Bytes) (m : List (Bytes × V)) → has_key k m ≡ true → suc (length (delete k m)) ≤ length m
  unfolding delete
  length-delete_present k [] h = ground arith
  length-delete_present k ((j, v) ∷ m) h =
      ground (arith, length-delete_present k m, length-delete k m)
