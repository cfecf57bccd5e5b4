-- ===== src/Selector/Build/Carrying.antt =====
-- The loop over the prior selectors: what it lets each of them mean.
use kfadapter.Base.{
  ℕ, ◌≡◌, ◌⊎◌, refl, sym, true, false, [], ◌∷◌, ◌++◌, arith, inl, inr, Bool-cases, Option-cases,
  subst,
}
use kfadapter.Base.Bytes.{Bytes, bytes_eq, bytes_eq→eq}
use kfadapter.State.Types.{NodeRef, Selectors, is_tombstoned}
use kfadapter.Selector.Build.{Entries, Carried, find_entry, carry_live, carry_one, carry}
use kfadapter.Selector.Build.Entries.{
  Allowed, Distinct, deactivate-Allowed_self, find_entry-none, find_entry-some, carry-Allowed,
  everything, carry_one-Distinct,
}

-- What a prior reference lets its selector mean: nothing while a tombstone lasts, its own node
-- while it is live; past its end, or of another generation, anything.
abbrev pub Permits : ℕ → ℕ → NodeRef → Bytes → Type 0
Permits want now ref id =
    (ref.generation ≡ want)
    → (is_tombstoned ref now ≡ false) × (ref.tombstoned ≡ false → id ≡ ref.node_id)

carry_one-Allowed_self :
    (want now : ℕ) (name : Bytes) (ref : NodeRef) (es : Entries) (stones : Selectors)
    → Distinct es
    → ref.generation ≡ want
    → is_tombstoned ref now ≡ true ⊎ ref.tombstoned ≡ false
    → Allowed name (Permits want now ref) (carry_one want now name ref (es, stones)).0
unfolding carry_one carry_live is_tombstoned
carry_one-Allowed_self want now name ref es stones d g (inl dead) =
    ground (arith, deactivate-Allowed_self name (Permits want now ref) es)
carry_one-Allowed_self want now name ref es stones d g (inr live) =
    elim (Option-cases (find_entry name es)) [
      | inl e ↦ ground (arith, find_entry-none name (Permits want now ref) es e)
      | inr (n, e) ↦ elim (Bool-cases (bytes_eq ref.node_id n.id)) [
        | inl y ↦
            let good : Permits want now ref n.id =
              λ _. (ground arith, λ _. sym (bytes_eq→eq ref.node_id n.id y)) in
            ground (arith, find_entry-some name (Permits want now ref) es n d e good)
        | inr y ↦ ground (arith, deactivate-Allowed_self name (Permits want now ref) es)
      ]
    ]

carry-append :
    (want now : ℕ) (before after : Selectors) (c : Carried)
    → carry want now (before ++ after) c ≡ carry want now after (carry want now before c)
unfolding carry
carry-append want now [] after c = refl
carry-append want now ((name, ref) ∷ before) after c =
    carry-append want now before after (carry_one want now name ref c)

carry-Distinct :
    (want now : ℕ) (previous : Selectors) (es : Entries) (stones : Selectors)
    → Distinct es
    → Distinct (carry want now previous (es, stones)).0
unfolding carry
carry-Distinct want now [] es stones d = d
carry-Distinct want now ((name, ref) ∷ previous) es stones d =
    let c = carry_one want now name ref (es, stones) in
    carry-Distinct want now previous c.0 c.1 (carry_one-Distinct want now name ref es stones d)

-- The flags after the entry of a prior selector, whatever state its reference is in.
carry_one-Permits :
    (want now : ℕ) (name : Bytes) (ref : NodeRef) (es : Entries) (stones : Selectors)
    → Distinct es
    → ref.generation ≡ want
    → Allowed name (Permits want now ref) (carry_one want now name ref (es, stones)).0
carry_one-Permits want now name ref es stones d g = elim (Bool-cases (is_tombstoned ref now)) [
  | inl dead ↦ carry_one-Allowed_self want now name ref es stones d g (inl dead)
  | inr past ↦ elim (Bool-cases ref.tombstoned) [
    | inr live ↦ carry_one-Allowed_self want now name ref es stones d g (inr live)
    | inl gone ↦
        everything name (Permits want now ref) (carry_one want now name ref (es, stones)).0
          (λ id e. (past, λ live. absurd (ground arith)))
  ]
]

pub carry-Permits :
    (want now : ℕ) (before after : Selectors) (name : Bytes) (ref : NodeRef) (es : Entries)
    → Distinct es
    → ref.generation ≡ want
    → Allowed name
        (Permits want now ref)
        (carry want now (before ++ ((name, ref) ∷ after)) (es, [])).0
unfolding carry
carry-Permits want now before after name ref es d g =
    let c = carry want now before (es, []) in
    let d' = carry-Distinct want now before es [] d in
    let c' = carry_one want now name ref c in
    let here = carry_one-Permits want now name ref c.0 c.1 d' g in
    subst (λ (x : Carried). Allowed name (Permits want now ref) x.0)
      (sym (carry-append want now before ((name, ref) ∷ after) (es, [])))
      (carry-Allowed want now name (Permits want now ref) after c'.0 c'.1 here
        (carry_one-Distinct want now name ref c.0 c.1 d'))
