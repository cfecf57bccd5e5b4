-- ===== src/Selector/Build/Complete.antt =====
-- The tombstones that a build carries over are complete.
use mathlib.Core.List.{Mem}
use kfadapter.Base.{
  ℕ, ◌≡◌, ◌≢◌, inl, inr, refl, sym, subst, Bool, true, List, [], ◌∷◌, ◌++◌, Option, none, some,
  ◌==◌, arith, All, All-append, Bool-cases,
}
use kfadapter.Base.Bytes.{Bytes, bytes_eq}
use kfadapter.State.Types.{Node, NodeRef, Selectors, is_tombstoned}
use kfadapter.State.Snapshot.Validity.{RefersTo, AllRefer}
use kfadapter.Selector.Identity.{}
use kfadapter.Selector.Build.{
  Entries, Carried, find_entry, deactivate, carry_live, carry_one, carry, buried,
}

-- A complete tombstone under a name, and an entry that refers to one of these nodes.
abbrev pub IsBuried : Bytes × NodeRef → Type 0
IsBuried (name, ref) =
    (name ≢ [])
    × (ref.generation ≢ 0)
    × (ref.tombstoned ≡ true)
    × (ref.node_id ≡ [])
    × (ref.tombstone_until ≢ 0)

abbrev pub IsReference : List Bytes → Bytes × NodeRef → Type 0
IsReference known (name, ref) = (name ≢ []) × RefersTo known ref

-- Selected nodes have an identifier and a selector; the active ones are among the known.
abbrev pub IsNamed : Node × Bool → Type 0
IsNamed (n, a) = (n.id ≢ []) × (n.selector ≢ [])

abbrev pub IsKnown : List Bytes → Node × Bool → Type 0
IsKnown known (n, a) = a ≡ true → Mem n.id known

buried-IsBuried :
    (want now : ℕ) (name : Bytes) → want ≢ 0 → name ≢ [] → IsBuried (name, buried want now)
buried-IsBuried want now name w n = (n, w, refl, refl, λ e. omega (arith, e))

-- A tombstone of a valid view stays complete when it is carried over.
kept-IsBuried :
    (known : List Bytes) (name : Bytes) (ref : NodeRef)
    → ref.tombstoned ≡ true
    → IsReference known (name, ref)
    → IsBuried (name, record ref { node_id = [] })
kept-IsBuried known name ref dead (n, (g, inl (t, i, u))) = (n, g, t, refl, u)
kept-IsBuried known name ref dead (n, (g, inr (l, i, m))) = absurd (ground arith)

deactivate-All : (name : Bytes) (es : Entries) → All IsNamed es → All IsNamed (deactivate name es)
unfolding deactivate
deactivate-All name [] h = tt
deactivate-All name ((n, a) ∷ es) (p, h) = (p, deactivate-All name es h)

-- What the loop over the prior selectors keeps.
abbrev pub IsCarried : Carried → Type 0
IsCarried c = All IsNamed c.0 × All IsBuried c.1

carry_live-IsCarried :
    (want now : ℕ) (name : Bytes) (ref : NodeRef) (found : Option Node) (es : Entries)
    (stones : Selectors)
    → want ≢ 0
    → name ≢ []
    → IsCarried (es, stones)
    → IsCarried (carry_live want now name ref found (es, stones))
unfolding carry_live
carry_live-IsCarried want now name ref none es stones w n (e, s) = (
  e,
  All-append IsBuried stones ((name, buried want now) ∷ []) s
      (buried-IsBuried want now name w n, tt),
)
carry_live-IsCarried want now name ref (some m) es stones w n (e, s) =
    elim (Bool-cases (bytes_eq ref.node_id m.id)) [
      | inl y ↦ rw y (e, s)
      | inr y ↦ rw y (
        deactivate-All name es e,
        All-append IsBuried stones ((name, buried want now) ∷ []) s
            (buried-IsBuried want now name w n, tt),
      )
    ]

carry_one-IsCarried :
    (want now : ℕ) (known : List Bytes) (name : Bytes) (ref : NodeRef) (es : Entries)
    (stones : Selectors)
    → want ≢ 0
    → IsReference known (name, ref)
    → IsCarried (es, stones)
    → IsCarried (carry_one want now name ref (es, stones))
unfolding carry_one
carry_one-IsCarried want now known name ref es stones w r (e, s) =
    elim (Bool-cases (ref.generation == want)) [
      | inr other ↦
          let same : carry_one want now name ref (es, stones) ≡ (es, stones) = ground arith in
          subst IsCarried (sym same) (e, s)
      | inl mine ↦ elim (Bool-cases ref.tombstoned) [
        | inr live ↦
            let same : carry_one want now name ref (es, stones)
                ≡ carry_live want now name ref (find_entry name es) (es, stones) =
              rw (mine, live) refl in
            subst IsCarried (sym same)
              (carry_live-IsCarried want now name ref (find_entry name es) es stones w r.0 (e, s))
        | inl dead ↦ elim (Bool-cases (is_tombstoned ref now)) [
          | inr past ↦
              let same : carry_one want now name ref (es, stones) ≡ (es, stones) = ground arith in
              subst IsCarried (sym same) (e, s)
          | inl lasting ↦
              let kept : Carried =
                (deactivate name es, stones ++ ((name, record ref { node_id = [] }) ∷ [])) in
              let same : carry_one want now name ref (es, stones) ≡ kept = ground arith in
              subst IsCarried (sym same) (
                deactivate-All name es e,
                All-append IsBuried stones ((name, record ref { node_id = [] }) ∷ []) s
                    (kept-IsBuried known name ref dead r, tt),
              )
        ]
      ]
    ]

pub carry-IsCarried :
    (want now : ℕ) (known : List Bytes) (previous : Selectors) (es : Entries) (stones : Selectors)
    → want ≢ 0
    → AllRefer known previous
    → IsCarried (es, stones)
    → IsCarried (carry want now previous (es, stones))
unfolding carry
carry-IsCarried want now known [] es stones w r h = h
carry-IsCarried want now known ((name, ref) ∷ previous) es stones w (p, r) h =
    let c = carry_one want now name ref (es, stones) in
    carry-IsCarried want now known previous c.0 c.1 w r
      (carry_one-IsCarried want now known name ref es stones w p h)
