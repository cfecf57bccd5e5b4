-- ===== src/Web/Access/Refinement.antt =====
-- The table implements the throttle, call by call and over any run.
use kfadapter.Base.{ℕ, ◌≤◌, List, [], ◌∷◌}
use kfadapter.Base.Bytes.{Bytes}
use kfadapter.Web.Access.{Attempts, Answer, Call, step}
use kfadapter.Web.Access.Throttle.{Throttle, SpecStep, Agrees}

abbrev pub Refined : (ℕ → ℕ) → Throttle → Call → Answer × Attempts → Type 0
Refined clock f c r = (f' : Throttle) × SpecStep clock f c r.0 f' × Agrees (clock 1) r.1 f'

-- The answers of a run, and the throttle's runs.
abbrev pub answers : List ((ℕ → ℕ) × Call) → Attempts → List Answer
answers [] m = []
answers ((clock, c) ∷ cs) m = (step clock c m).0 ∷ answers cs (step clock c m).1

pub data SpecRun : List ((ℕ → ℕ) × Call) → Throttle → List Answer → Throttle → Type 0 where
  ends : {f : Throttle} → SpecRun [] f [] f
  follows :
      {clock : ℕ → ℕ} {c : Call} {cs : List ((ℕ → ℕ) × Call)} {f g h : Throttle} {r : Answer}
      {rs : List Answer}
      → SpecStep clock f c r g
      → SpecRun cs g rs h
      → SpecRun ((clock, c) ∷ cs) f (r ∷ rs) h

-- The readings of the clock do not go back.
abbrev pub Monotone : ℕ → List ((ℕ → ℕ) × Call) → Type 0
Monotone t [] = Unit {0}
Monotone t ((clock, c) ∷ cs) = (t ≤ clock 0) × (clock 0 ≤ clock 1) × Monotone (clock 1) cs

abbrev pub end_of : ℕ → List ((ℕ → ℕ) × Call) → ℕ
end_of t [] = t
end_of t ((clock, c) ∷ cs) = end_of (clock 1) cs
