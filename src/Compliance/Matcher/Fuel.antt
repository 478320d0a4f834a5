-- ===== src/Compliance/Matcher/Fuel.antt =====
-- The fuel of the loop over the queue of internal/compliance/aho.go: the nodes under those of the queue.
use yzapi.Base.{
  ℕ, zero, suc, ◌+◌, ◌≤◌, ◌<◌, ◌≡◌, refl, ap, Option, some, List, [], ◌∷◌, ◌++◌, map, arith,
}
use yzapi.Base.Pick.{All}
use yzapi.Health.Truncate.{Bytes}
use yzapi.Compliance.Matcher.{edges, sum_children, under}
use yzapi.Compliance.Matcher.Trie.{IsTrie}
use yzapi.Compliance.Matcher.Visit.{edges-next, child_of}

abbrev pub weight : (ℕ → ℕ) → List ℕ → ℕ
weight w [] = 0
weight w (n ∷ ns) = w n + weight w ns

pub weight-children :
    (w : ℕ → ℕ) (ns : List ℕ) (es : List (ℕ × ℕ))
    → weight w (ns ++ map child_of es) ≡ weight w ns + sum_children w es
weight-children w [] [] = refl
weight-children w [] ((b, c) ∷ es) = omega (arith, weight-children w [] es)
weight-children w (n ∷ ns) es = omega (arith, weight-children w ns es)

sum_same :
    (v w : ℕ → ℕ) (es : List (ℕ × ℕ))
    → All (λ e. v e.1 ≡ w e.1) es
    → sum_children v es ≡ sum_children w es
sum_same v w [] ok = refl
sum_same v w ((b, c) ∷ es) (e, ok) = omega (arith, e, sum_same v w es ok)

pub All-map :
    {A : Type 0} (P R : A → Type 0) → ((x : A) → P x → R x) → (xs : List A) → All P xs → All R xs
All-map P R f [] ok = tt
All-map P R f (x ∷ xs) (p, ok) = (f x p, All-map P R f xs ok)

module _ (order : ℕ → List ℕ) (size : ℕ) (next : ℕ → ℕ → Option ℕ) (l : ℕ → Bytes)
    (t : IsTrie size next l) where
  -- deep enough is deep enough: children have larger numbers
  under_more :
      (k n : ℕ) → n < size → size ≤ k + n → under order next k n ≡ under order next (suc k) n
  unfolding under
  under_more zero n lt deep = absurd (omega arith)
  under_more (suc k) n lt deep = ap suc (
      sum_same (under order next k) (under order next (suc k)) (edges (next n) (order n)) (
        All-map (λ e. next n e.0 ≡ some e.1)
          (λ e. under order next k e.1 ≡ under order next (suc k) e.1)
          (λ e g. let (lc, more, _, _) = t.down n e.0 e.1 lt g in under_more k e.1 lc (omega arith))
          (edges (next n) (order n)) (edges-next (next n) (order n))))

  pub under_step :
      (n : ℕ)
      → n < size
      → under order next size n
        ≡ suc (sum_children (under order next size) (edges (next n) (order n)))
  unfolding under
  under_step n lt = under_more size n lt (omega arith)
