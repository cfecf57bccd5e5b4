-- ===== src/Selector/Build/Tombstones.antt =====
-- The tombstones, and what the next build of a generation makes of a prior selector.
use kfadapter.Base.{
  ℕ, zero, suc, ◌-◌, ◌≡◌, ◌⊎◌, refl, Bool, true, false, ◌&&◌, List, [], ◌∷◌, ◌++◌, Option, none,
  some, drop, length, arith, inl, inr, Bool-cases, Option-cases, subst,
}
use kfadapter.Base.Bytes.{Bytes, bytes_eq, bytes_eq→eq}
use kfadapter.Base.Dict.{lookup, insert, lookup-insert}
use kfadapter.State.Types.{Node, NodeRef, Selectors, is_tombstoned}
use kfadapter.Selector.Identity.{Primitives, ok, Result-cases}
use kfadapter.Selector.Registry.{Generation, load}
use kfadapter.Selector.Build.{
  Entries, BuildResult, find_entry, carry_live, carry_one, carry, buried, add_live, add_stones,
  insert_sorted, sort_stones, latest, select_nodes, finish, build_from, build_with_keys,
  build_with_tombstones, max_tombstones,
}
use kfadapter.Selector.Build.Carrying.{Permits, carry-Permits}
use kfadapter.Selector.Build.Remapping.{select_nodes-Distinct}
use kfadapter.Selector.Build.Entries.{Allowed}

all_dead : Selectors → Bool
all_dead [] = true
all_dead ((name, ref) ∷ m) = ref.tombstoned && all_dead m

all_dead-append : (m k : Selectors) → all_dead (m ++ k) ≡ (all_dead m && all_dead k)
unfolding all_dead
all_dead-append [] k = refl
all_dead-append ((name, ref) ∷ m) k = ground (arith, all_dead-append m k)

all_dead-drop : (n : ℕ) (m : Selectors) → all_dead m ≡ true → all_dead (drop n m) ≡ true
unfolding all_dead
all_dead-drop zero m h = ground arith
all_dead-drop (suc n) [] h = ground arith
all_dead-drop (suc n) ((name, ref) ∷ m) h = ground (arith, all_dead-drop n m)

all_dead-latest : (m : Selectors) → all_dead m ≡ true → all_dead (latest m) ≡ true
all_dead-latest m h = ground (arith, all_dead-drop (length m - max_tombstones) m h)

all_dead-insert_sorted :
    (name : Bytes) (ref : NodeRef) (m : Selectors)
    → ref.tombstoned ≡ true
    → all_dead m ≡ true
    → all_dead (insert_sorted (name, ref) m) ≡ true
unfolding all_dead insert_sorted
all_dead-insert_sorted name ref [] h k = ground arith
all_dead-insert_sorted name ref ((other, r) ∷ m) h k =
    ground (arith, all_dead-insert_sorted name ref m h)

all_dead-sort_stones : (m : Selectors) → all_dead m ≡ true → all_dead (sort_stones m) ≡ true
unfolding all_dead sort_stones
all_dead-sort_stones [] h = refl
all_dead-sort_stones ((name, ref) ∷ m) h =
    all_dead-insert_sorted name ref (sort_stones m) (ground arith)
      (all_dead-sort_stones m (ground arith))

carry_one-all_dead :
    (want now : ℕ) (name : Bytes) (ref : NodeRef) (es : Entries) (stones : Selectors)
    → all_dead stones ≡ true
    → all_dead (carry_one want now name ref (es, stones)).1 ≡ true
unfolding carry_one carry_live all_dead
carry_one-all_dead want now name ref es stones h = elim (Option-cases (find_entry name es)) [
  | inl e ↦ ground (
    arith,
    all_dead-append stones ((name, record ref { node_id = [] }) ∷ []),
    all_dead-append stones ((name, buried want now) ∷ []),
  )
  | inr (n, e) ↦ ground (
    arith,
    all_dead-append stones ((name, record ref { node_id = [] }) ∷ []),
    all_dead-append stones ((name, buried want now) ∷ []),
  )
]

carry-all_dead :
    (want now : ℕ) (previous : Selectors) (es : Entries) (stones : Selectors)
    → all_dead stones ≡ true
    → all_dead (carry want now previous (es, stones)).1 ≡ true
unfolding carry
carry-all_dead want now [] es stones h = h
carry-all_dead want now ((name, ref) ∷ previous) es stones h =
    let c = carry_one want now name ref (es, stones) in
    carry-all_dead want now previous c.0 c.1 (carry_one-all_dead want now name ref es stones h)

lookup-add_stones :
    (name : Bytes) (r : NodeRef) (stones m : Selectors)
    → all_dead stones ≡ true
    → lookup name (add_stones stones m) ≡ some r
    → (r.tombstoned ≡ true) ⊎ (lookup name m ≡ some r)
unfolding all_dead add_stones
lookup-add_stones name r [] m d h = inr h
lookup-add_stones name r ((other, ref) ∷ stones) m d h =
    elim (lookup-add_stones name r stones (insert other ref m) (ground arith) h) [
      | inl dead ↦ inl dead
      | inr e ↦ elim (Bool-cases (bytes_eq other name)) [
        | inl y ↦ inl (ground (arith, lookup-insert other name ref m))
        | inr y ↦ inr (ground (arith, lookup-insert other name ref m))
      ]
    ]

lookup-add_live :
    (want : ℕ) (name : Bytes) (r : NodeRef) (P : Bytes → Type 0) (es : Entries) (m : Selectors)
    → Allowed name P es
    → lookup name (add_live want es m) ≡ some r
    → (lookup name m ≡ some r) ⊎ P r.node_id
unfolding add_live
lookup-add_live want name r P [] m a h = inl h
lookup-add_live want name r P ((n, false) ∷ es) m (a, t) h = lookup-add_live want name r P es m t h
lookup-add_live want name r P ((n, true) ∷ es) m (a, t) h =
    let ref : NodeRef = record {
      node_id = n.id;
      generation = want;
      tombstoned = false;
      tombstone_until = 0;
    } in
    elim (lookup-add_live want name r P es (insert n.selector ref m) t h) [
      | inr good ↦ inr good
      | inl e ↦ elim (Bool-cases (bytes_eq n.selector name)) [
        | inl y ↦
            let same : ref ≡ r = ground (arith, lookup-insert n.selector name ref m) in
            inr (subst (λ (k : NodeRef). P k.node_id) same (a refl (bytes_eq→eq n.selector name y)))
        | inr y ↦ inl (ground (arith, lookup-insert n.selector name ref m))
      ]
    ]

pub build_with_keys-ok :
    (p : Primitives) (want : ℕ) (nodes : List Node) (previous : Selectors) (now : ℕ)
    (keys : Option Generation) (result : BuildResult)
    → build_with_keys p want nodes previous now keys ≡ ok result
    → (k : Generation) × (es : Entries) × (select_nodes p k [] [] nodes ≡ ok es)
      × (result ≡ finish want (carry want now previous (es, [])))
unfolding build_with_keys build_from
build_with_keys-ok p want nodes previous now none result h = absurd (ground arith)
build_with_keys-ok p want nodes previous now (some k) result h =
    elim (Result-cases (select_nodes p k [] [] nodes)) [
      | inl (es, e) ↦ (k, es, e, ground arith)
      | inr (x, e) ↦ absurd (ground arith)
    ]

finish-selectors :
    (want : ℕ) (es : Entries) (stones : Selectors) (name : Bytes) (P : Bytes → Type 0) (r : NodeRef)
    → Allowed name P es
    → all_dead stones ≡ true
    → lookup name (finish want (es, stones)).selectors ≡ some r
    → (r.tombstoned ≡ true) ⊎ P r.node_id
unfolding finish lookup
finish-selectors want es stones name P r a dead h =
    elim (lookup-add_stones name r (latest (sort_stones stones)) (add_live want es [])
      (all_dead-latest (sort_stones stones) (all_dead-sort_stones stones dead)) h) [
        | inl t ↦ inl t
        | inr e ↦ elim (lookup-add_live want name r P es [] a e) [
          | inl none_there ↦ absurd (ground arith)
          | inr good ↦ inr good
        ]
      ]

-- A prior selector of the generation never comes to mean another node. If the build gives it a
-- reference at all, then that is a tombstone; or the prior one was no lasting tombstone, and
-- where it was live it named the same node.
pub build_with_tombstones-remap :
    (p : Primitives) (r : Generation) (want now : ℕ) (nodes : List Node) (before after : Selectors)
    (name : Bytes) (ref new : NodeRef) (result : BuildResult)
    → build_with_tombstones p r want nodes (before ++ ((name, ref) ∷ after)) now ≡ ok result
    → ref.generation ≡ want
    → lookup name result.selectors ≡ some new
    → (new.tombstoned ≡ true)
      ⊎ ((is_tombstoned ref now ≡ false) × (ref.tombstoned ≡ false → new.node_id ≡ ref.node_id))
unfolding build_with_tombstones all_dead
build_with_tombstones-remap p r want now nodes before after name ref new result h g found =
    let previous = before ++ ((name, ref) ∷ after) in
    let (keys, es, selected, same) =
      build_with_keys-ok p want nodes previous now (load want r) result h in
    let d = (select_nodes-Distinct p keys [] [] nodes es selected).0 in
    let c = carry want now previous (es, []) in
    elim (finish-selectors want c.0 c.1 name (Permits want now ref) new
      (carry-Permits want now before after name ref es d g)
      (carry-all_dead want now previous es [] refl)
      (subst (λ (b : BuildResult). lookup name b.selectors ≡ some new) same found)) [
        | inl dead ↦ inl dead
        | inr good ↦ inr (good g)
      ]
