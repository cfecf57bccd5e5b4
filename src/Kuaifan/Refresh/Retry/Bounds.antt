-- ===== src/Kuaifan/Refresh/Retry/Bounds.antt =====
-- How often a call is repeated, and how long the waits are.
use kfadapter.Base.{
  ℕ, zero, suc, ◌+◌, ◌-◌, ◌*◌, ◌/◌, ◌%◌, ◌^◌, ◌≤◌, ◌<◌, ◌≡◌, ◌⊎◌, ◌≢◌, refl, sym, subst, ap, ◌∙◌,
  Bool, true, ◌||◌, not, List, [], ◌∷◌, Option, none, some, leb, ltb, ◌==◌, if◌then◌else◌, arith,
  Bool-cases, inl, inr,
}
use kfadapter.Kuaifan.Refresh.Retry.{
  Attempt, stopped, no_value, again, retry_from, retry, backoff_bounds, backoff_base, millisecond,
  draw_bytes, random_int, jittered, retry_delay, attempts_of, default_max_backoff,
}

draw_bytes-lt :
    (limit n : ℕ) (samples : List ℕ) (v : ℕ) → n ≢ 0 → draw_bytes limit n samples ≡ some v → v < n
draw_bytes-lt limit n [] v h e = ground arith
draw_bytes-lt limit n (s ∷ ss) v h e = elim (Bool-cases (ltb s limit)) [
  | inl y ↦
      let own : some (s % n) ≡ some v = rw y at e in
      let small : s % n < n = omega (arith, h) in ground (arith, own, small)
  | inr y ↦ draw_bytes-lt limit n ss v h (rw y at e)
]

pub random_int-lt : (bytes words : List ℕ) (n v : ℕ) → random_int bytes words n ≡ some v → v < n
unfolding random_int
random_int-lt bytes words n v e = elim (Bool-cases (n == 0)) [
  | inl z ↦ absurd (ground (arith, rw z at e))
  | inr z ↦
      let positive : n ≢ 0 = ground arith in
      elim (Bool-cases (leb n 256)) [
        | inl small ↦ draw_bytes-lt (256 - 256 % n) n bytes v positive (rw (z, small) at e)
        | inr large ↦ draw_bytes-lt (2 ^ 32 - 2 ^ 32 % n) n words v positive (rw (z, large) at e)
      ]
]

backoff_base-le :
    (attempt highest base : ℕ) → base ≤ highest → backoff_base attempt highest base ≤ highest
unfolding backoff_base
backoff_base-le zero highest base h = h
backoff_base-le (suc attempt) highest base h =
    ground (arith, backoff_base-le attempt highest (base * 2))

backoff_base-ge :
    (attempt highest base : ℕ) → base ≤ highest → base ≤ backoff_base attempt highest base
unfolding backoff_base
backoff_base-ge zero highest base h = omega arith
backoff_base-ge (suc attempt) highest base h =
    ground (arith, backoff_base-ge attempt highest (base * 2), h)

jittered-le :
    (base : ℕ) (o : Option ℕ)
    → ((j : ℕ) → o ≡ some j → j < base / millisecond + 1)
    → jittered base o ≤ base
jittered-le base none h = omega arith
jittered-le base (some j) h = omega (arith, h j refl)

pair_or : ℕ × ℕ → Option (ℕ × ℕ) → ℕ × ℕ
pair_or d none = d
pair_or d (some w) = w

backoff_bounds-le :
    (lowest highest : ℕ) (b : ℕ × ℕ)
    → backoff_bounds lowest highest ≡ some b
    → (b.0 ≤ b.1) × (b.1 ≤ default_max_backoff)
unfolding backoff_bounds pair_or
backoff_bounds-le lowest highest b e =
    let low = if lowest == 0 then 250_000_000 else lowest in
    let high =
      if highest == 0 || ltb default_max_backoff highest then default_max_backoff else highest in
    let top : high ≤ default_max_backoff = ground arith in
    elim (Bool-cases (ltb high low)) [
      | inl bad ↦ absurd (ground (arith, rw bad at e))
      | inr good ↦
          let own : b ≡ (low, high) = sym (ap (λ o. pair_or (low, high) o) (rw good at e)) in
          subst (λ (w : ℕ × ℕ). (w.0 ≤ w.1) × (w.1 ≤ default_max_backoff)) (sym own)
            (ground arith, top)
    ]

-- Whatever is drawn, and at every attempt, a wait is at most the upper bound that the refresher took, and
-- so at most five seconds.
pub retry_delay-le :
    (lowest highest attempt : ℕ) (bytes words : List ℕ) (b : ℕ × ℕ)
    → backoff_bounds lowest highest ≡ some b
    → (retry_delay b.0 b.1 bytes words attempt ≤ b.1) × (b.1 ≤ default_max_backoff)
unfolding retry_delay
retry_delay-le lowest highest attempt bytes words b e =
    let r = backoff_bounds-le lowest highest b e in
    let base = backoff_base attempt b.1 b.0 in
    let top : base ≤ b.1 = backoff_base-le attempt b.1 b.0 r.0 in
    let drawn : jittered base (random_int bytes words (base / millisecond + 1)) ≤ base =
      jittered-le base (random_int bytes words (base / millisecond + 1))
        (λ j h. random_int-lt bytes words (base / millisecond + 1) j h) in
    (omega (arith, top, drawn), r.1)

-- What a run of `retry` from an attempt on comes to.
pub record IsRetried {ℓ} {A : Type ℓ} (left i : ℕ) (call : ℕ → Attempt A) (r : Attempt A × ℕ)
    : Type ℓ where
  pub bounded : r.1 ≤ left
  pub repeated : (j : ℕ) → suc j < r.1 → again (call (i + j)) ≡ true
  pub outcome :
      (r.0 ≡ stopped)
      ⊎ ((r.0 ≡ no_value) × (left ≡ 0) ⊎ ((c : ℕ) × (r.1 ≡ suc c) × (r.0 ≡ call (i + c))))

attempts_of-bounds : (n : ℕ) → (1 ≤ attempts_of n) × (attempts_of n ≤ 5)
unfolding attempts_of
attempts_of-bounds n = ground arith

module _ {ℓ} {A : Type ℓ} (call : ℕ → Attempt A) where
  once-IsRetried : (left i : ℕ) → IsRetried (suc left) i call (call i, 1)
  once-IsRetried left i = record {
    bounded = omega arith;
    repeated = λ j h. absurd (omega (arith, h));
    outcome = inr (inr (0, refl, ap call (omega arith)));
  }

  stopped-IsRetried : (left i c : ℕ) → c ≤ 1 → IsRetried (suc left) i call (stopped, c)
  stopped-IsRetried left i c h = record {
    bounded = omega (arith, h);
    repeated = λ j k. absurd (omega (arith, h, k));
    outcome = inl refl;
  }

  later-repeated :
      (left i : ℕ) (r : Attempt A × ℕ)
      → again (call i) ≡ true
      → IsRetried left (suc i) call r
      → (j : ℕ) → suc j < suc r.1
      → again (call (i + j)) ≡ true
  later-repeated left i r h t zero k = ap (λ n. again (call n)) (omega arith) ∙ h
  later-repeated left i r h t (suc j) k =
      ap (λ n. again (call n)) (omega arith) ∙ t.repeated j (omega (arith, k))

  later-outcome :
      (left i : ℕ) (r : Attempt A × ℕ)
      → left ≢ 0
      → ((r.0 ≡ stopped)
          ⊎ ((r.0 ≡ no_value) × (left ≡ 0) ⊎ ((c : ℕ) × (r.1 ≡ suc c) × (r.0 ≡ call (suc i + c)))))
      → ((r.0 ≡ stopped)
          ⊎ ((r.0 ≡ no_value) × (suc left ≡ 0)
              ⊎ ((c : ℕ) × (suc r.1 ≡ suc c) × (r.0 ≡ call (i + c)))))
  later-outcome left i r n (inl s) = inl s
  later-outcome left i r n (inr (inl z)) = absurd (n z.1)
  later-outcome left i r n (inr (inr (c, e, o))) =
      inr (inr (suc c, ap suc e, o ∙ ap call (omega arith)))

  later-IsRetried :
      (left i : ℕ) (r : Attempt A × ℕ)
      → again (call i) ≡ true
      → left ≢ 0
      → IsRetried left (suc i) call r
      → IsRetried (suc left) i call (r.0, suc r.1)
  later-IsRetried left i r h n t = record {
    bounded = omega (arith, t.bounded);
    repeated = λ j k. later-repeated left i r h t j k;
    outcome = later-outcome left i r n t.outcome;
  }

  retry_from-IsRetried :
      (left i : ℕ) (gone : ℕ → Bool) → IsRetried left i call (retry_from left i gone call)
  unfolding retry_from
  retry_from-IsRetried zero i gone = record {
    bounded = omega arith;
    repeated = λ j h. absurd (omega (arith, h));
    outcome = inr (inl (refl, refl));
  }
  retry_from-IsRetried (suc left) i gone =
      let rest = retry_from left (suc i) gone call in
      elim (Bool-cases (gone (2 * i))) [
        | inl g ↦ rw g (stopped-IsRetried left i 0 (omega arith))
        | inr g ↦ elim (Bool-cases (not (again (call i)) || left == 0)) [
          | inl last ↦ rw (g, last) (once-IsRetried left i)
          | inr more ↦ elim (Bool-cases (gone (2 * i + 1))) [
            | inl w ↦ rw (g, more, w) (stopped-IsRetried left i 1 (omega arith))
            | inr w ↦
                rw (g, more, w)
                  (later-IsRetried left i rest (ground arith) (ground arith)
                    (retry_from-IsRetried left (suc i) gone))
          ]
        ]
      ]

-- Repeating a call makes at most the number of attempts that was set, between one and five, and goes on
-- only after a failure that may pass: every call but the last failed so. What it returns is the
-- context's error or what the last call returned.
pub retry-lem {ℓ} :
    {A : Type ℓ} (call : ℕ → Attempt A) (n : ℕ) (gone : ℕ → Bool)
    → (1 ≤ attempts_of n)
      × (attempts_of n ≤ 5)
      × IsRetried (attempts_of n) 0 call (retry (attempts_of n) gone call)
unfolding retry
retry-lem call n gone =
    let b = attempts_of-bounds n in (b.0, b.1, retry_from-IsRetried call (attempts_of n) 0 gone)
