-- ===== src/Compliance/Matcher/Outputs.antt =====
-- `newMatcher` of internal/compliance/aho.go, up to the links: the outputs of the nodes.
use yzapi.Base.{
  ℕ, suc, ◌<◌, ◌≡◌, refl, sym, ap, ◌∙◌, ◌≢◌, ◌⊎◌, inl, inr, ◌↔◌, List, [], ◌∷◌, ◌++◌, update_self,
  update_other, subst, less_or_not, arith,
}
use yzapi.Base.Pick.{All}
use mathlib.Core.List.{cons≢nil}
use native.Mathlib.Decide.{ℕ_discrete}
use mathlib.Core.List.{Memᴰ, reverse_aux, reverse}
use mathlib.Core.List.Memᴰ.{head, append_left, append_right, append_cases, eq_of_singleton, not-nil}
use yzapi.Health.Truncate.{Bytes}
use yzapi.Compliance.Matcher.{Matcher, insert, mark, add_pattern, add_patterns}
use yzapi.Compliance.Matcher.Trie.{IsTrie, Node}
use yzapi.Compliance.Matcher.Insert.{IsText, Extends, insert-Reached}

-- The outputs are the patterns: `q i s` where the pattern number `i` is `s`, last byte first.
module _ (m : Matcher) (l : ℕ → Bytes) (q : ℕ → Bytes → Type 0) where
  pub record Outputs : Type 0 where
    pub placed : (i : ℕ) (s : Bytes) → q i s → Node m.size m.next l s
    pub listed : (n i : ℕ) → n < m.size → q i (l n) → Memᴰ i (m.out n)
    pub sound : (n i : ℕ) → n < m.size → Memᴰ i (m.out n) → q i (l n)

abbrev With : ℕ → Bytes → (ℕ → Bytes → Type 0) → ℕ → Bytes → Type 0
With i p q k s = q k s ⊎ ((k ≡ i) × (s ≡ reverse p))

module _ (m : Matcher) (l : ℕ → Bytes) (q : ℕ → Bytes → Type 0) (k : Matcher) (j : ℕ → Bytes)
    (o : Outputs m l q) (x : Extends m l k j) (t : IsTrie k.size k.next j) where
  -- the new nodes have neither outputs nor patterns
  Outputs-Extends : Outputs k j q
  Outputs-Extends = record {
    placed =
        λ i s h. let (c, lc, e) = o.placed i s h in (c, omega (arith, x.wider), x.same c lc ∙ e);
    listed = λ n i lt h. elim (less_or_not n m.size) [
      | inl old ↦
          subst (Memᴰ i) (sym (x.kept n old)) (o.listed n i old (subst (q i) (x.same n old) h))
      | inr new ↦
          let (c, lc, e) = o.placed i (j n) h in
          absurd (omega (arith, lc, new, t.one c n (omega (arith, x.wider)) lt (x.same c lc ∙ e)))
    ];
    sound = λ n i lt h. elim (less_or_not n m.size) [
      | inl old ↦
          subst (q i) (sym (x.same n old)) (o.sound n i old (subst (Memᴰ i) (x.kept n old) h))
      | inr new ↦ absurd (not-nil (subst (Memᴰ i) (x.bare n new lt) h))
    ];
  }

mark-Outputs :
    (m : Matcher) (l : ℕ → Bytes) (q : ℕ → Bytes → Type 0) (i : ℕ) (p : Bytes) (cur : ℕ)
    → Outputs m l q
    → IsTrie m.size m.next l
    → cur < m.size
    → l cur ≡ reverse p
    → Outputs (mark i (m, cur)) l (With i p q)
mark-Outputs m l q i p cur o t lt e = record {
  placed = λ k s h. elim h [ inl old ↦ o.placed k s old | inr (_, f) ↦ (cur, lt, e ∙ sym f) ];
  listed = λ n k ln h. elim (ℕ_discrete n cur) [
    | yes here ↦ subst (Memᴰ k) (sym (update_self m.out cur n marked (sym here))) (elim h [
      | inl old ↦ append_left (i ∷ []) (o.listed cur k lt (subst (λ a. q k (l a)) here old))
      | inr (f, _) ↦ append_right (m.out cur) (head f)
    ])
    | no off ↦ subst (Memᴰ k) (sym (update_other m.out cur n marked (λ f. off (sym f)))) (elim h [
      | inl old ↦ o.listed n k ln old
      | inr (_, f) ↦ absurd (off (t.one n cur ln lt (f ∙ sym e)))
    ])
  ];
  sound = λ n k ln h. elim (ℕ_discrete n cur) [
    | yes here ↦
        subst (λ a. With i p q k (l a)) (sym here)
          (elim (append_cases (m.out cur)
            (subst (Memᴰ k) (update_self m.out cur n marked (sym here)) h)) [
              | inl old ↦ inl (o.sound cur k lt old)
              | inr new ↦ inr (eq_of_singleton new, e)
            ])
    | no off ↦
        inl (o.sound n k ln (subst (Memᴰ k) (update_other m.out cur n marked (λ f. off (sym f))) h))
  ];
}
  where
    marked : List ℕ
    marked = m.out cur ++ (i ∷ [])

-- the patterns of a slice that are not empty, with their numbers from `k` on
abbrev pub Numbered : ℕ → List Bytes → ℕ → Bytes → Type 0
Numbered k [] i s = ⊥
Numbered k (p ∷ ps) i s = ((i ≡ k) × (s ≡ reverse p) × (p ≢ [])) ⊎ Numbered (suc k) ps i s

pub Outputs-iff :
    (m : Matcher) (l : ℕ → Bytes) (q r : ℕ → Bytes → Type 0)
    → ((i : ℕ) (s : Bytes) → q i s ↔ r i s)
    → Outputs m l q
    → Outputs m l r
Outputs-iff m l q r f o = record {
  placed = λ i s h. o.placed i s ((f i s).1 h);
  listed = λ n i lt h. o.listed n i lt ((f i (l n)).1 h);
  sound = λ n i lt h. (f i (l n)).0 (o.sound n i lt h);
}

-- a trie whose outputs are the patterns
abbrev pub Holds : Matcher → (ℕ → Bytes → Type 0) → Type 0
Holds m q = (l : ℕ → Bytes) × IsTrie m.size m.next l × Outputs m l q

add_pattern-Holds :
    (i b : ℕ) (p : Bytes) (m : Matcher) (q : ℕ → Bytes → Type 0)
    → IsText (b ∷ p)
    → Holds m q
    → Holds (add_pattern i (b ∷ p) m) (With i (b ∷ p) q)
unfolding add_pattern
add_pattern-Holds i b p m q bytes (l, t, o) =
    let (j, t₁, x, lt, e) = insert-Reached (b ∷ p) m l 0 bytes t t.inhabited in
    (
      j,
      t₁,
      mark-Outputs (insert (b ∷ p) (m, 0)).0 j q i (b ∷ p) (insert (b ∷ p) (m, 0)).1
          (Outputs-Extends m l q (insert (b ∷ p) (m, 0)).0 j o x t₁) t₁ lt
          (e ∙ ap (reverse_aux (b ∷ p)) t.root),
    )

regroup :
    (k : ℕ) (p : Bytes) (ps : List Bytes) (q : ℕ → Bytes → Type 0)
    → p ≢ []
    → (i : ℕ) (s : Bytes)
    → (With k p q i s ⊎ Numbered (suc k) ps i s) ↔ (q i s ⊎ Numbered k (p ∷ ps) i s)
regroup k p ps q d i s = (
  λ h. elim h [
    | inl (inl a) ↦ inl a
    | inl (inr (e, f)) ↦ inr (inl (e, f, d))
    | inr c ↦ inr (inr c)
  ],
  λ h. elim h [
    | inl a ↦ inl (inl a)
    | inr (inl (e, f, _)) ↦ inl (inr (e, f))
    | inr (inr c) ↦ inr c
  ],
)

pub add_patterns-Holds :
    (k : ℕ) (ps : List Bytes) (m : Matcher) (q : ℕ → Bytes → Type 0)
    → All IsText ps
    → Holds m q
    → Holds (add_patterns k ps m) (λ i s. q i s ⊎ Numbered k ps i s)
unfolding add_patterns add_pattern
add_patterns-Holds k [] m q bytes (l, t, o) = (
  l,
  t,
  Outputs-iff m l q (λ i s. q i s ⊎ ⊥)
      (λ i s. (inl, λ h. elim h [ inl a ↦ a | inr none_left ↦ absurd none_left ])) o,
)
add_patterns-Holds k ([] ∷ ps) m q (_, bytes) h =
    let (l, t, o) = add_patterns-Holds (suc k) ps m q bytes h in
    (
      l,
      t,
      Outputs-iff (add_patterns (suc k) ps m) l (λ i s. q i s ⊎ Numbered (suc k) ps i s)
          (λ i s. q i s ⊎ Numbered k ([] ∷ ps) i s)
          (λ i s. (
            λ h. elim h [ inl a ↦ inl a | inr c ↦ inr (inr c) ],
            λ h. elim h [
              | inl a ↦ inl a
              | inr (inl (_, _, d)) ↦ absurd (d refl)
              | inr (inr c) ↦ inr c
            ],
          ))
          o,
    )
add_patterns-Holds k ((b ∷ p) ∷ ps) m q (text, bytes) h =
    let (l, t, o) =
      add_patterns-Holds (suc k) ps (add_pattern k (b ∷ p) m) (With k (b ∷ p) q) bytes
        (add_pattern-Holds k b p m q text h) in
    (
      l,
      t,
      Outputs-iff (add_patterns (suc k) ps (add_pattern k (b ∷ p) m)) l
          (λ i s. With k (b ∷ p) q i s ⊎ Numbered (suc k) ps i s)
          (λ i s. q i s ⊎ Numbered k ((b ∷ p) ∷ ps) i s) (regroup k (b ∷ p) ps q (λ e. cons≢nil e))
          o,
    )
