-- ===== src/Compliance/Matcher/Insert.antt =====
-- `newMatcher` of internal/compliance/aho.go, up to the links: the patterns' texts as a trie, and the
-- pattern's number at the node of its text.
use yzapi.Base.{
  ℕ, ◌≤◌, ◌<◌, ◌≡◌, refl, ap, ◌∙◌, inl, inr, [], ◌∷◌, update_self, update_other, Option-cases,
  less_or_not, arith,
}
use yzapi.Base.Pick.{All}
use mathlib.Core.List.{reverse_aux}
use yzapi.Health.Truncate.{Bytes}
use yzapi.Compliance.Matcher.{Matcher, grow, insert}
use yzapi.Compliance.Matcher.Trie.{IsTrie, grown, grown-old, grown-new, grown-IsTrie}

abbrev pub IsByte : ℕ → Type 0
IsByte b = b < 256

abbrev pub IsText : Bytes → Type 0
IsText p = All IsByte p

-- more nodes, with no outputs yet, and the old ones as they were
module _ (m : Matcher) (l : ℕ → Bytes) (k : Matcher) (j : ℕ → Bytes) where
  pub record Extends : Type 0 where
    pub wider : m.size ≤ k.size
    pub same : (n : ℕ) → n < m.size → j n ≡ l n
    pub kept : (n : ℕ) → n < m.size → k.out n ≡ m.out n
    pub bare : (n : ℕ) → m.size ≤ n → n < k.size → k.out n ≡ []

Extends-trans :
    (m : Matcher) (l : ℕ → Bytes) (k : Matcher) (j : ℕ → Bytes) (h : Matcher) (i : ℕ → Bytes)
    → Extends m l k j
    → Extends k j h i
    → Extends m l h i
Extends-trans m l k j h i a b = record {
  wider = omega (arith, a.wider, b.wider);
  same = λ n lt. b.same n (omega (arith, a.wider)) ∙ a.same n lt;
  kept = λ n lt. b.kept n (omega (arith, a.wider)) ∙ a.kept n lt;
  bare = λ n ge lt. elim (less_or_not n k.size) [
    | inl old ↦ b.kept n old ∙ a.bare n ge old
    | inr new ↦ b.bare n new lt
  ];
}

-- what a text that is walked or added from the node `cur` gives
abbrev pub Reached : Matcher → (ℕ → Bytes) → Bytes → Matcher × ℕ → Type 0
Reached m l s r =
    (j : ℕ → Bytes) × IsTrie r.0.size r.0.next j
    × Extends m l r.0 j
    × (r.1 < r.0.size)
    × (j r.1 ≡ s)

grow-Reached :
    (m : Matcher) (l : ℕ → Bytes) (cur b : ℕ)
    → IsTrie m.size m.next l
    → cur < m.size
    → b < 256
    → Reached m l (b ∷ l cur) (grow b cur m)
unfolding grow
grow-Reached m l cur b t lt byte = elim (Option-cases (m.next cur b)) [
  | inl e ↦ rw e (
    grown m l cur b,
    grown-IsTrie m l cur b t lt byte e,
    record {
      wider = omega arith;
      same = grown-old m l cur b;
      kept = λ n ln. update_other m.out m.size n [] (omega arith);
      bare = λ n ge ln. update_self m.out m.size n [] (omega arith);
    },
    omega arith,
    grown-new m l cur b,
  )
  | inr (c, e) ↦ rw e (
      let (lc, _, _, f) = t.down cur b c lt e in
      (
        l,
        t,
        record {
          wider = omega arith;
          same = λ n ln. refl;
          kept = λ n ln. refl;
          bare = λ n ge ln. absurd (omega arith);
        },
        lc,
        f,
      ))
]

pub insert-Reached :
    (p : Bytes) (m : Matcher) (l : ℕ → Bytes) (cur : ℕ)
    → IsText p
    → IsTrie m.size m.next l
    → cur < m.size
    → Reached m l (reverse_aux p (l cur)) (insert p (m, cur))
unfolding insert
insert-Reached [] m l cur bytes t lt = (
  l,
  t,
  record {
    wider = omega arith;
    same = λ n ln. refl;
    kept = λ n ln. refl;
    bare = λ n ge ln. absurd (omega arith);
  },
  lt,
  refl,
)
insert-Reached (b ∷ p) m l cur (byte, bytes) t lt =
    let (j, t₁, x₁, lt₁, e₁) = grow-Reached m l cur b t lt byte in
    let (i, t₂, x₂, lt₂, e₂) = insert-Reached p (grow b cur m).0 j (grow b cur m).1 bytes t₁ lt₁ in
    (
      i,
      t₂,
      Extends-trans m l (grow b cur m).0 j (insert p (grow b cur m)).0 i x₁ x₂,
      lt₂,
      e₂ ∙ ap (reverse_aux p) e₁,
    )
