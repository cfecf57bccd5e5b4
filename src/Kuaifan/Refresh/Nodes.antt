-- ===== src/Kuaifan/Refresh/Nodes.antt =====
-- The merge of two profiles' nodes, as a lookup by identifier.
use kfadapter.Base.{
  ◌≡◌, refl, ap, ◌∙◌, Bool, true, false, ◌&&◌, ◌||◌, not, List, [], ◌∷◌, ◌++◌, Option, none, some,
  arith, Option-cases,
}
use kfadapter.Base.Bytes.{Bytes, bytes_eq→eq, bytes_eq_refl}
use kfadapter.Base.Dict.{member}
use kfadapter.Base.Dict.Keys.{bytes_eq_sym}
use kfadapter.State.Types.{Node}
use kfadapter.State.Snapshot.{node_by_id}
use kfadapter.Kuaifan.Refresh.{merge_one, merge_profile_nodes}

abbrev pub is_some {ℓ} : {A : Type ℓ} → Option A → Bool
is_some none = false
is_some (some a) = true

-- The first of two that is there.
abbrev pub or_else {ℓ} : {A : Type ℓ} → Option A → Option A → Option A
or_else none b = b
or_else (some a) b = some a

abbrev pub unless {ℓ} : {A : Type ℓ} → Bool → Option A → Option A
unless true o = none
unless false o = o

-- No identifier twice.
abbrev pub distinct_ids : List Node → Bool
distinct_ids [] = true
distinct_ids (n ∷ ns) = not (is_some (node_by_id n.id ns)) && distinct_ids ns

node_by_id-merge_one :
    (id : Bytes) (seen : List Bytes) (ns : List Node)
    → node_by_id id (merge_one seen ns).0 ≡ unless (member id seen) (node_by_id id ns)
unfolding node_by_id merge_one
node_by_id-merge_one id seen [] = ground arith
node_by_id-merge_one id seen (n ∷ ns) = ground (
  arith,
  bytes_eq_sym n.id id,
  bytes_eq→eq n.id id,
  node_by_id-merge_one id seen ns,
  node_by_id-merge_one id (n.id ∷ seen) ns,
)

member-merge_one :
    (id : Bytes) (seen : List Bytes) (ns : List Node)
    → member id (merge_one seen ns).1 ≡ (member id seen || is_some (node_by_id id ns))
unfolding node_by_id merge_one
member-merge_one id seen [] = ground arith
member-merge_one id seen (n ∷ ns) = ground (
  arith,
  bytes_eq_sym n.id id,
  bytes_eq→eq n.id id,
  member-merge_one id seen ns,
  member-merge_one id (n.id ∷ seen) ns,
)

node_by_id-append :
    (id : Bytes) (xs ys : List Node)
    → node_by_id id (xs ++ ys) ≡ or_else (node_by_id id xs) (node_by_id id ys)
unfolding node_by_id
node_by_id-append id [] ys = refl
node_by_id-append id (x ∷ xs) ys = ground (arith, node_by_id-append id xs ys)

distinct_ids-merge_one :
    (seen : List Bytes) (ns : List Node) → distinct_ids (merge_one seen ns).0 ≡ true
unfolding merge_one
distinct_ids-merge_one seen [] = refl
distinct_ids-merge_one seen (n ∷ ns) = ground (
  arith,
  bytes_eq_refl n.id,
  node_by_id-merge_one n.id (n.id ∷ seen) ns,
  distinct_ids-merge_one seen ns,
  distinct_ids-merge_one (n.id ∷ seen) ns,
)

-- Lists with different identifiers, joined.
abbrev apart_from : List Bytes → List Node → Bool
apart_from seen [] = true
apart_from seen (n ∷ ns) = not (member n.id seen) && apart_from seen ns

node_by_id-merged :
    (id : Bytes) (seen : List Bytes) (xs ys : List Node)
    → or_else
        (unless (member id []) (node_by_id id xs))
        (unless (is_some (node_by_id id xs)) (node_by_id id ys))
      ≡ or_else (node_by_id id xs) (node_by_id id ys)
node_by_id-merged id seen xs ys = ground (arith, Option-cases (node_by_id id xs))

distinct_ids-append :
    (xs ys : List Node)
    → distinct_ids xs ≡ true
    → distinct_ids ys ≡ true
    → ((id : Bytes) → is_some (node_by_id id xs) ≡ true → node_by_id id ys ≡ none)
    → distinct_ids (xs ++ ys) ≡ true
unfolding node_by_id
distinct_ids-append [] ys dx dy h = dy
distinct_ids-append (x ∷ xs) ys dx dy h =
    let rest : distinct_ids (xs ++ ys) ≡ true =
      distinct_ids-append xs ys (ground (arith, dx)) dy (λ id e. h id (ground (arith, e))) in
    let gone : node_by_id x.id ys ≡ none = h x.id (ground (arith, bytes_eq_refl x.id)) in
    ground (arith, rest, gone, dx, node_by_id-append x.id xs ys)

-- The merge of the nodes of two profiles has no identifier twice, and finds under an identifier the
-- node that the first profile has for it, or else the one of the second: nothing is lost, and the
-- first profile wins.
pub merge_profile_nodes-lem :
    (first second : List Node) (id : Bytes)
    → (distinct_ids (merge_profile_nodes first second) ≡ true)
      × (node_by_id id (merge_profile_nodes first second)
          ≡ or_else (node_by_id id first) (node_by_id id second))
unfolding merge_profile_nodes
merge_profile_nodes-lem first second id =
    let a = merge_one [] first in
    let b = merge_one a.1 second in
    let seen : (i : Bytes)
        → node_by_id i b.0 ≡ unless (is_some (node_by_id i first)) (node_by_id i second) =
      λ i.
        node_by_id-merge_one i a.1 second
        ∙ ap (λ s. unless s (node_by_id i second)) (member-merge_one i [] first) in
    let own : (i : Bytes) → node_by_id i a.0 ≡ node_by_id i first =
      λ i. node_by_id-merge_one i [] first in
    (
      distinct_ids-append a.0 b.0 (distinct_ids-merge_one [] first)
          (distinct_ids-merge_one a.1 second) (λ i e. seen i ∙ ground (arith, e, own i)),
      node_by_id-append id a.0 b.0 ∙ ground (arith, own id, seen id),
    )
