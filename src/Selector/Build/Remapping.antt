-- ===== src/Selector/Build/Remapping.antt =====
-- The first loop of `BuildWithTombstones`: what its collision check achieves.
use kfadapter.Base.{◌≡◌, refl, true, false, List, [], ◌∷◌, none, arith, inl, inr, Bool-cases, subst}
use kfadapter.Base.Bytes.{Bytes, bytes_eq, bytes_eq_refl, bytes_eq→eq}
use kfadapter.Base.Dict.{member}
use kfadapter.State.Types.{Node}
use kfadapter.Selector.Identity.{
  Primitives, Result, ok, err, Result-cases, canonicalize, derive_canonical,
}
use kfadapter.Selector.Registry.{Generation}
use kfadapter.Selector.Build.{
  Entries, find_entry, select_nodes, select_one, select_next, select_identity, select_with,
  identity_of_node,
}
use kfadapter.Selector.Build.Entries.{Distinct}

select_one-selector :
    (p : Primitives) (keys : Generation) (ids selectors : List Bytes) (n m : Node)
    → select_one p keys ids selectors n ≡ ok m
    → member m.selector selectors ≡ false
unfolding select_one select_identity select_with
select_one-selector p keys ids selectors n m h =
    elim (Result-cases (canonicalize p (identity_of_node n))) [
      | inl (i, e) ↦
          elim (Result-cases (derive_canonical p i keys.selector_key keys.proxy_auth_key)) [
            | inl (c, e') ↦ ground arith
            | inr (x, e') ↦ absurd (ground arith)
          ]
      | inr (x, e) ↦ absurd (ground arith)
    ]

pub select_next-ok :
    (p : Primitives) (keys : Generation) (r : Result Node) (rest : Node → Result Entries)
    (es : Entries)
    → select_next p keys r rest ≡ ok es
    → (m : Node) × (tail : Entries) × (r ≡ ok m) × (rest m ≡ ok tail) × (es ≡ (m, true) ∷ tail)
unfolding select_next
select_next-ok p keys (err e) rest es h = absurd (ground arith)
select_next-ok p keys (ok m) rest es h = elim (Result-cases (rest m)) [
  | inl (tail, e) ↦ (m, tail, refl, e, ground arith)
  | inr (x, e) ↦ absurd (ground arith)
]

-- The collision check leaves no two nodes with one selector.
pub select_nodes-Distinct :
    (p : Primitives) (keys : Generation) (ids selectors : List Bytes) (ns : List Node)
    (es : Entries)
    → select_nodes p keys ids selectors ns ≡ ok es
    → Distinct es × ((name : Bytes) → member name selectors ≡ true → find_entry name es ≡ none)
unfolding select_nodes find_entry
select_nodes-Distinct p keys ids selectors [] [] h = (tt, λ name m. refl)
select_nodes-Distinct p keys ids selectors [] (x ∷ es) h = absurd (ground arith)
select_nodes-Distinct p keys ids selectors (n ∷ ns) [] h =
    let (m, tail, e, e', s) =
      select_next-ok p keys (select_one p keys ids selectors n)
        (λ (x : Node). select_nodes p keys (n.id ∷ ids) (x.selector ∷ selectors) ns) [] h in
    absurd (ground arith)
select_nodes-Distinct p keys ids selectors (n ∷ ns) ((k, a) ∷ es) h =
    let (m, tail, e, e', s) =
      select_next-ok p keys (select_one p keys ids selectors n)
        (λ (x : Node). select_nodes p keys (n.id ∷ ids) (x.selector ∷ selectors) ns) ((k, a) ∷ es)
        h in
    let (d, away) = select_nodes-Distinct p keys (n.id ∷ ids) (m.selector ∷ selectors) ns tail e' in
    let fresh : member m.selector selectors ≡ false =
      select_one-selector p keys ids selectors n m e in
    let same : m ≡ k = ground arith in
    let rest : tail ≡ es = ground arith in
    let gone : find_entry m.selector tail ≡ none =
      away m.selector (ground (arith, bytes_eq_refl m.selector)) in
    (
      (
        subst (λ (t : Entries). find_entry k.selector t ≡ none) rest
            (subst (λ (x : Node). find_entry x.selector tail ≡ none) same gone),
        subst Distinct rest d,
      ),
      λ name held.
          let different : bytes_eq k.selector name ≡ false =
            elim (Bool-cases (bytes_eq k.selector name)) [
              | inl y ↦ absurd (ground (arith, bytes_eq→eq k.selector name y))
              | inr y ↦ y
            ] in
          let none_left : find_entry name tail ≡ none = away name (ground arith) in ground arith,
    )
