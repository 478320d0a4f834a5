-- ===== src/Compliance/Matcher/Follow.antt =====
-- The inner loops of internal/compliance/aho.go: the longest suffix of a text that is the text of a node.
-- Texts are held last byte first, so a suffix is a prefix here.
use yzapi.Base.{
  ℕ, zero, suc, ◌≤◌, ◌<◌, ◌≡◌, refl, sym, ap, ◌∙◌, ◌≢◌, inl, inr, Option, none, some, ◌∷◌, subst,
  length, Option-cases, List-cases, arith,
}
use native.Mathlib.Decide.{ℕ_discrete}
use yzapi.Health.Truncate.{Bytes}
use yzapi.Compliance.Matcher.{follow}
use yzapi.Compliance.Matcher.Pre.{Pre, Pre-trans, Pre-linear, Pre-same, Pre-cases}
use yzapi.Compliance.Matcher.Trie.{IsTrie, not_both}

module _ (child : ℕ → Option ℕ) (fail : ℕ → ℕ) (fuel f : ℕ) (e : child f ≡ none) where
  follow_stops : f ≡ 0 → follow child fail (suc fuel) f ≡ 0
  unfolding follow
  follow_stops z = ground arith

  follow_falls : f ≢ 0 → follow child fail (suc fuel) f ≡ follow child fail fuel (fail f)
  unfolding follow
  follow_falls nz = ground arith

module _ (size : ℕ) (next : ℕ → ℕ → Option ℕ) (l : ℕ → Bytes) where
  -- `g` is the longest node under a length that is a prefix of a text
  pub record IsBest (bound : ℕ) (s : Bytes) (g : ℕ) : Type 0 where
    pub node : g < size
    pub prefix : Pre (l g) s
    pub under : length (l g) < bound
    pub longest :
        (n : ℕ) → n < size → Pre (l n) s → length (l n) < bound → length (l n) ≤ length (l g)

  -- the link of a node: the longest proper suffix of its text
  abbrev pub IsFall : (ℕ → ℕ) → ℕ → Type 0
  IsFall fail n = n ≢ 0 → IsBest (length (l n)) (l n) (fail n)

  module _ (t : IsTrie size next l) where
    pub length_zero : (n : ℕ) → n < size → length (l n) ≡ 0 → n ≡ 0
    length_zero n ln e = elim (List-cases (l n)) [
      | inl f ↦ t.one n 0 ln t.inhabited (f ∙ sym t.root)
      | inr (b, r, f) ↦ absurd (omega (arith, sym (ap length f) ∙ e))
    ]

    module _ (child : ℕ → Option ℕ) (fail : ℕ → ℕ) (s : Bytes) (b bound : ℕ)
        (accepts : (f : ℕ) → f < size → length (l f) < bound → child f ≡ next f b)
        (falls : (f : ℕ) → f < size → length (l f) < bound → IsFall fail f) where
      -- `f` is such a node, and no longer one has a child at `b`
      pub record IsCandidate (f : ℕ) : Type 0 where
        pub node : f < size
        pub prefix : Pre (l f) s
        pub under : length (l f) < bound
        pub no_longer :
            (n c : ℕ)
            → n < size
            → Pre (l n) s
            → length (l n) < bound
            → next n b ≡ some c
            → length (l n) ≤ length (l f)

      best_child : (f c : ℕ) → IsCandidate f → next f b ≡ some c → IsBest (suc bound) (b ∷ s) c
      best_child f c k e =
          let (lc, _, _, d) = t.down f b c k.node e in
          record {
            node = lc;
            prefix = subst (λ a. Pre a (b ∷ s)) (sym d) (refl, k.prefix);
            under = rw d (omega (arith, k.under));
            longest = λ n ln p short. elim (Pre-cases (l n) b s p) [
              | inl empty ↦ rw empty (omega arith)
              | inr (r, g, q) ↦
                  let (a, la, h, o) = t.up n b r ln g in
                  rw (d, g)
                    (omega (
                      arith,
                      ap length h,
                      ap length g,
                      k.no_longer a n la (subst (λ x. Pre x s) (sym h) q)
                          (omega (arith, ap length h, ap length g, short)) o,
                    ))
            ];
          }

      best_root : IsCandidate 0 → next 0 b ≡ none → IsBest (suc bound) (b ∷ s) 0
      best_root k e = record {
        node = t.inhabited;
        prefix = subst (λ a. Pre a (b ∷ s)) (sym t.root) tt;
        under = omega (arith, k.under);
        longest = λ n ln p short. elim (Pre-cases (l n) b s p) [
          | inl empty ↦ rw empty (omega arith)
          | inr (r, g, q) ↦
              let (a, la, h, o) = t.up n b r ln g in
              let le =
                k.no_longer a n la (subst (λ x. Pre x s) (sym h) q)
                  (omega (arith, ap length h, ap length g, short)) o in
              let z = length_zero a la (omega (arith, le, ap length t.root)) in
              absurd (not_both e (ap (λ x. next x b) (sym z) ∙ o))
        ];
      }

      fall-IsCandidate : (f : ℕ) → f ≢ 0 → IsCandidate f → next f b ≡ none → IsCandidate (fail f)
      fall-IsCandidate f nz k e =
          let best = falls f k.node k.under nz in
          record {
            node = best.node;
            prefix = Pre-trans (l (fail f)) (l f) s best.prefix k.prefix;
            under = omega (arith, best.under, k.under);
            no_longer = λ n c ln p short g. elim (ℕ_discrete (length (l n)) (length (l f))) [
              | yes same ↦ absurd (
                  not_both e (
                    ap (λ x. next x b)
                      (sym (t.one n f ln k.node (Pre-same (l n) (l f) s p k.prefix same)))
                    ∙ g))
              | no d ↦
                  let le = k.no_longer n c ln p short g in
                  best.longest n ln (Pre-linear (l n) (l f) s p k.prefix le) (omega arith)
            ];
          }

      pub follow-IsBest :
          (fuel f : ℕ)
          → IsCandidate f
          → length (l f) < fuel
          → IsBest (suc bound) (b ∷ s) (follow child fail fuel f)
      unfolding follow
      follow-IsBest zero f k enough = absurd (omega arith)
      follow-IsBest (suc fuel) f k enough = elim (Option-cases (child f)) [
        | inr (c, e) ↦ rw (e, follow) (best_child f c k (sym (accepts f k.node k.under) ∙ e))
        | inl e ↦ elim (ℕ_discrete f 0) [
          | yes z ↦ subst (IsBest (suc bound) (b ∷ s)) (sym (follow_stops child fail fuel f e z)) (
              best_root (subst IsCandidate z k)
                (ap (λ x. next x b) (sym z) ∙ sym (accepts f k.node k.under) ∙ e))
          | no nz ↦ subst (IsBest (suc bound) (b ∷ s)) (sym (follow_falls child fail fuel f e nz)) (
              follow-IsBest fuel (fail f)
                (fall-IsCandidate f nz k (sym (accepts f k.node k.under) ∙ e))
                (omega (arith, (falls f k.node k.under nz).under)))
        ]
      ]
