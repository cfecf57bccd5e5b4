-- ===== src/Selector/Build/Entrywise.antt =====
-- What holds of every entry of a map or a list of tombstones, through what the build does to it.
use kfadapter.Base.{ℕ, zero, suc, ◌-◌, inl, inr, [], ◌∷◌, drop, length, ltb, All, Bool-cases}
use kfadapter.Base.Bytes.{Bytes, bytes_eq}
use kfadapter.Base.Dict.{insert}
use kfadapter.State.Types.{NodeRef, Selectors}
use kfadapter.Selector.Build.{
  add_stones, insert_sorted, sort_stones, latest, max_tombstones, stone_lt,
}

-- Predicates of all entries through insertion, sorting and slicing.
module _ (P : Bytes × NodeRef → Type 0) where
  pub insert-All :
      (name : Bytes) (ref : NodeRef) (m : Selectors)
      → P (name, ref)
      → All P m
      → All P (insert name ref m)
  unfolding insert
  insert-All name ref [] p h = (p, tt)
  insert-All name ref ((other, r) ∷ m) p (q, h) = elim (Bool-cases (bytes_eq other name)) [
    | inl e ↦ rw e (p, h)
    | inr e ↦ rw e (q, insert-All name ref m p h)
  ]

  insert_sorted-All :
      (x : Bytes × NodeRef) (m : Selectors) → P x → All P m → All P (insert_sorted x m)
  unfolding insert_sorted
  insert_sorted-All x [] p h = (p, tt)
  insert_sorted-All x (y ∷ m) p (q, h) = elim (Bool-cases (stone_lt y x)) [
    | inl e ↦ rw e (q, insert_sorted-All x m p h)
    | inr e ↦ rw e (p, (q, h))
  ]

  pub sort_stones-All : (m : Selectors) → All P m → All P (sort_stones m)
  unfolding sort_stones
  sort_stones-All [] h = tt
  sort_stones-All (x ∷ m) (p, h) = insert_sorted-All x (sort_stones m) p (sort_stones-All m h)

  drop-All : (n : ℕ) (m : Selectors) → All P m → All P (drop n m)
  drop-All zero m h = h
  drop-All (suc n) [] h = tt
  drop-All (suc n) (x ∷ m) (p, h) = drop-All n m h

  pub latest-All : (m : Selectors) → All P m → All P (latest m)
  latest-All m h = elim (Bool-cases (ltb max_tombstones (length m))) [
    | inl e ↦ rw e (drop-All (length m - max_tombstones) m h)
    | inr e ↦ rw e h
  ]

  pub add_stones-All : (stones m : Selectors) → All P stones → All P m → All P (add_stones stones m)
  unfolding add_stones
  add_stones-All [] m s h = h
  add_stones-All ((name, ref) ∷ stones) m (p, s) h =
      add_stones-All stones (insert name ref m) s (insert-All name ref m p h)
