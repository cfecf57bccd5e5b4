-- ===== src/Selector/Build/Entries.antt =====
-- The flags of the selected nodes through the loop over the prior selectors.
use kfadapter.Base.{
  ℕ, ◌≡◌, refl, sym, ◌∙◌, subst, true, [], ◌∷◌, none, some, arith, inl, inr, Bool-cases,
  Option-cases,
}
use kfadapter.Base.Bytes.{Bytes, bytes_eq, bytes_eq_refl, bytes_eq→eq}
use kfadapter.State.Types.{Node, NodeRef, Selectors}
use kfadapter.Selector.Build.{Entries, find_entry, deactivate, carry_live, carry_one, carry}

-- Every active node with this selector has an identifier of which `P` holds.
abbrev pub Allowed : Bytes → (Bytes → Type 0) → Entries → Type 0
Allowed name P [] = Unit
Allowed name P ((n, a) ∷ es) = (a ≡ true → n.selector ≡ name → P n.id) × Allowed name P es

-- No two selected nodes have the same selector.
abbrev pub Distinct : Entries → Type 0
Distinct [] = Unit
Distinct ((n, a) ∷ es) = (find_entry n.selector es ≡ none) × Distinct es

pub deactivate-Allowed :
    (name other : Bytes) (P : Bytes → Type 0) (es : Entries)
    → Allowed name P es
    → Allowed name P (deactivate other es)
unfolding deactivate
deactivate-Allowed name other P [] h = h
deactivate-Allowed name other P ((n, a) ∷ es) (h, t) =
    ((λ on same. h (ground arith) same), deactivate-Allowed name other P es t)

pub deactivate-Allowed_self :
    (name : Bytes) (P : Bytes → Type 0) (es : Entries) → Allowed name P (deactivate name es)
unfolding deactivate
deactivate-Allowed_self name P [] = tt
deactivate-Allowed_self name P ((n, a) ∷ es) =
    ((λ on same. absurd (ground (arith, bytes_eq_refl name))), deactivate-Allowed_self name P es)

find_entry-deactivate :
    (name other : Bytes) (es : Entries) → find_entry name (deactivate other es) ≡ find_entry name es
unfolding find_entry deactivate
find_entry-deactivate name other [] = refl
find_entry-deactivate name other ((n, a) ∷ es) = ground (arith, find_entry-deactivate name other es)

pub deactivate-Distinct :
    (other : Bytes) (es : Entries) → Distinct es → Distinct (deactivate other es)
unfolding deactivate
deactivate-Distinct other [] h = h
deactivate-Distinct other ((n, a) ∷ es) (h, t) =
    (find_entry-deactivate n.selector other es ∙ h, deactivate-Distinct other es t)

-- Where no entry has the selector, all is allowed; where one has, what holds of its identifier.
pub find_entry-none :
    (name : Bytes) (P : Bytes → Type 0) (es : Entries)
    → find_entry name es ≡ none
    → Allowed name P es
unfolding find_entry
find_entry-none name P [] h = tt
find_entry-none name P ((n, a) ∷ es) h = (
  (λ on same. absurd (ground (arith, bytes_eq_refl name))),
  find_entry-none name P es (ground arith),
)

pub find_entry-some :
    (name : Bytes) (P : Bytes → Type 0) (es : Entries) (n : Node)
    → Distinct es
    → find_entry name es ≡ some n
    → P n.id
    → Allowed name P es
unfolding find_entry
find_entry-some name P [] n d h good = tt
find_entry-some name P ((m, a) ∷ es) n (away, d) h good =
    elim (Bool-cases (bytes_eq m.selector name)) [
      | inl e ↦
          let same : m ≡ n = ground arith in
          let gone : find_entry name es ≡ none = ground (arith, bytes_eq→eq m.selector name e) in
          ((λ on x. subst (λ (k : Node). P k.id) (sym same) good), find_entry-none name P es gone)
      | inr e ↦ (
        (λ on same. absurd (ground (arith, bytes_eq_refl name))),
        find_entry-some name P es n d (ground arith) good,
      )
    ]

carry_one-Allowed :
    (want now : ℕ) (name other : Bytes) (ref : NodeRef) (P : Bytes → Type 0) (es : Entries)
    (stones : Selectors)
    → Allowed name P es
    → Distinct es
    → Allowed name P (carry_one want now other ref (es, stones)).0
      × Distinct (carry_one want now other ref (es, stones)).0
unfolding carry_one carry_live
carry_one-Allowed want now name other ref P es stones h d =
    elim (Option-cases (find_entry other es)) [
      | inl e ↦ ground (arith, deactivate-Allowed name other P es h, deactivate-Distinct other es d)
      | inr (n, e) ↦
          ground (arith, deactivate-Allowed name other P es h, deactivate-Distinct other es d)
    ]

pub carry-Allowed :
    (want now : ℕ) (name : Bytes) (P : Bytes → Type 0) (previous : Selectors) (es : Entries)
    (stones : Selectors)
    → Allowed name P es
    → Distinct es
    → Allowed name P (carry want now previous (es, stones)).0
unfolding carry
carry-Allowed want now name P [] es stones h d = h
carry-Allowed want now name P ((other, ref) ∷ previous) es stones h d =
    let (h', d') = carry_one-Allowed want now name other ref P es stones h d in
    let c = carry_one want now other ref (es, stones) in
    carry-Allowed want now name P previous c.0 c.1 h' d'

pub everything :
    (name : Bytes) (P : Bytes → Type 0) (es : Entries) → ((id : Bytes) → P id) → Allowed name P es
everything name P [] all = tt
everything name P ((n, a) ∷ es) all = ((λ on same. all n.id), everything name P es all)

pub carry_one-Distinct :
    (want now : ℕ) (other : Bytes) (ref : NodeRef) (es : Entries) (stones : Selectors)
    → Distinct es
    → Distinct (carry_one want now other ref (es, stones)).0
carry_one-Distinct want now other ref es stones d =
    (carry_one-Allowed want now other other ref (λ _. Unit) es stones
      (everything other (λ _. Unit) es (λ _. tt)) d).1
