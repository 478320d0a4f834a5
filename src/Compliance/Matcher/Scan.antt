-- ===== src/Compliance/Matcher/Scan.antt =====
-- `Match` of internal/compliance/aho.go over an automaton that is built: what is found after each byte.
use yzapi.Base.{
  ℕ, suc, ◌<◌, ◌≡◌, sym, ap, ◌∙◌, ◌⊎◌, inl, inr, ◌↔◌, true, false, Option, List, [], ◌∷◌, ◌++◌,
  subst, length, update, arith, Bool-cases, update_self, update_other,
}
use native.Mathlib.Decide.{ℕ_discrete}
use mathlib.Core.Bool.{true≢false}
use mathlib.Core.List.{Memᴰ}
use mathlib.Core.List.Memᴰ.{
  head, tail, not-nil, append_left, append_right, append_cases, cases_cons, eq_of_singleton,
}
use yzapi.Health.Truncate.{Bytes}
use yzapi.Compliance.Matcher.{Matcher, Found, follow, collect_one, collect, scan}
use yzapi.Compliance.Matcher.Pre.{Pre, Pre-length, Pre-trans, Pre-linear}
use yzapi.Compliance.Matcher.Trie.{IsTrie, Node}
use yzapi.Compliance.Matcher.Follow.{IsBest, follow-IsBest}
use yzapi.Compliance.Matcher.Visit.{Good, IsStage}

-- no number twice
abbrev pub Distinct : List ℕ → Type 0
Distinct [] = Unit
Distinct (x ∷ xs) = (Memᴰ x xs → ⊥) × Distinct xs

Distinct-append : (xs : List ℕ) (p : ℕ) → Distinct xs → (Memᴰ p xs → ⊥) → Distinct (xs ++ (p ∷ []))
Distinct-append [] p d new = (not-nil, tt)
Distinct-append (x ∷ xs) p (h, d) new = (
  λ k. elim (append_cases xs k) [ inl old ↦ h old | inr e ↦ new (head (sym (eq_of_singleton e))) ],
  Distinct-append xs p d (λ k. new (tail k)),
)

-- `seen` holds what `found` lists, each once
pub record IsTally (s : Found) : Type 0 where
  pub marked : (p : ℕ) → Memᴰ p s.found → s.seen p ≡ true
  pub there : (p : ℕ) → s.seen p ≡ true → Memᴰ p s.found
  pub once : Distinct s.found

abbrev Adds : Found → (ℕ → Type 0) → Found → Type 0
Adds s new r = IsTally r × ((i : ℕ) → Memᴰ i r.found ↔ (Memᴰ i s.found ⊎ new i))

add_new :
    (p : ℕ) (s : Found)
    → IsTally s
    → s.seen p ≡ false
    → IsTally (record { found = s.found ++ (p ∷ []); seen = update s.seen p true })
add_new p s t e = record {
  marked = λ i h. elim (append_cases s.found h) [
    | inl old ↦ elim (ℕ_discrete p i) [
      | yes same ↦ update_self s.seen p i true same
      | no d ↦ update_other s.seen p i true d ∙ t.marked i old
    ]
    | inr new ↦ update_self s.seen p i true (sym (eq_of_singleton new))
  ];
  there = λ i h. elim (ℕ_discrete p i) [
    | yes same ↦ append_right s.found (head (sym same))
    | no d ↦ append_left (p ∷ []) (t.there i (sym (update_other s.seen p i true d) ∙ h))
  ];
  once = Distinct-append s.found p t.once (λ h. true≢false (sym (t.marked p h) ∙ e));
}

collect_one-Adds : (p : ℕ) (s : Found) → IsTally s → Adds s (λ i. i ≡ p) (collect_one p s)
collect_one-Adds p s t = elim (Bool-cases (s.seen p)) [
  | inl e ↦ rw e (
    t,
    λ i. (
      inl,
      λ h. elim h [
        | inl old ↦ old
        | inr same ↦ subst (λ a. Memᴰ a s.found) (sym same) (t.there p e)
      ],
    ),
  )
  | inr e ↦ rw e (
    add_new p s t e,
    λ i. (
      λ h. elim (append_cases s.found h) [
        | inl old ↦ inl old
        | inr new ↦ inr (eq_of_singleton new)
      ],
      λ h. elim h [
        | inl old ↦ append_left (p ∷ []) old
        | inr same ↦ append_right s.found (head same)
      ],
    ),
  )
]

pub collect-Adds : (ps : List ℕ) (s : Found) → IsTally s → Adds s (λ i. Memᴰ i ps) (collect ps s)
unfolding collect
collect-Adds [] s t = (t, λ i. (inl, λ h. elim h [ inl old ↦ old | inr k ↦ absurd (not-nil k) ]))
collect-Adds (p ∷ ps) s t =
    let (t₁, f₁) = collect_one-Adds p s t in
    let (t₂, f₂) = collect-Adds ps (collect_one p s) t₁ in
    (
      t₂,
      λ i. (
        λ h. elim ((f₂ i).0 h) [
          | inl old ↦ elim ((f₁ i).0 old) [ inl first ↦ inl first | inr same ↦ inr (head same) ]
          | inr new ↦ inr (tail new)
        ],
        λ h. (f₂ i).1 (elim h [
          | inl old ↦ inl ((f₁ i).1 (inl old))
          | inr new ↦ elim (cases_cons new) [
            | inl same ↦ inl ((f₁ i).1 (inr same))
            | inr rest ↦ inr rest
          ]
        ]),
      ),
    )

module _ (q : ℕ → Bytes → Type 0) where
  -- the pattern number `i` is a suffix of the text, held last byte first
  abbrev pub Ends : ℕ → Bytes → Type 0
  Ends i s = (p : Bytes) × Pre p s × q i p

  -- it ends in the part `text` that follows
  abbrev pub Follows : ℕ → Bytes → Bytes → Type 0
  Follows i s [] = ⊥
  Follows i s (b ∷ text) = Ends i (b ∷ s) ⊎ Follows i (b ∷ s) text

module _ (size : ℕ) (next : ℕ → ℕ → Option ℕ) (l : ℕ → Bytes) (q : ℕ → Bytes → Type 0)
    (t : IsTrie size next l) (placed : (i : ℕ) (s : Bytes) → q i s → Node size next l s)
    (m : Matcher) (st : IsStage size next l q t placed m)
    (good : (n : ℕ) → n < size → Good size next l q t placed m n) where
  -- the node of the text so far: the longest suffix that is a node's text
  abbrev pub At : Bytes → ℕ → Type 0
  At s cur = IsBest size next l (suc (length s)) s cur

  out-Ends : (s : Bytes) (cur i : ℕ) → At s cur → Memᴰ i (m.out cur) ↔ Ends q i s
  out-Ends s cur i best = (
    λ h.
        let (p, a, g) = st.sound.only cur i best.node h in
        (p, Pre-trans p (l cur) s a best.prefix, g),
    λ (p, a, g).
        let (n, ln, e) = placed i p g in
        let le =
          best.longest n ln (subst (λ r. Pre r s) (sym e) a)
            (omega (arith, ap length e, Pre-length p s a)) in
        (good cur best.node).1 i p
          (Pre-linear p (l cur) s a best.prefix (omega (arith, ap length e, le))) g,
  )

  step-At :
      (b : ℕ) (s : Bytes) (cur : ℕ)
      → At s cur
      → At (b ∷ s) (follow (λ f. m.next f b) m.fail m.size cur)
  step-At b s cur best =
      follow-IsBest size next l t (λ f. m.next f b) m.fail s b (suc (length s))
        (λ f lf short. ap (λ nx. nx f b) st.next_same) (λ f lf short. (good f lf).0) m.size cur
        (record {
          node = best.node;
          prefix = best.prefix;
          under = best.under;
          no_longer = λ n c ln p short e. best.longest n ln p short;
        })
        (omega (arith, t.short cur best.node, best.node, st.size_same))

  pub scan-Adds :
      (text s : Bytes) (cur : ℕ) (r : Found)
      → At s cur
      → IsTally r
      → Adds r (λ i. Follows q i s text) (scan m text cur r)
  unfolding scan
  scan-Adds [] s cur r best tally =
      (tally, λ i. (inl, λ h. elim h [ inl old ↦ old | inr none_left ↦ absurd none_left ]))
  scan-Adds (b ∷ text) s cur r best tally =
      let at = follow (λ f. m.next f b) m.fail m.size cur in
      let here = step-At b s cur best in
      let (t₁, f₁) = collect-Adds (m.out at) r tally in
      let (t₂, f₂) = scan-Adds text (b ∷ s) at (collect (m.out at) r) here t₁ in
      (
        t₂,
        λ i. (
          λ h. elim ((f₂ i).0 h) [
            | inl old ↦ elim ((f₁ i).0 old) [
              | inl first ↦ inl first
              | inr new ↦ inr (inl ((out-Ends (b ∷ s) at i here).0 new))
            ]
            | inr later ↦ inr (inr later)
          ],
          λ h. (f₂ i).1 (elim h [
            | inl first ↦ inl ((f₁ i).1 (inl first))
            | inr (inl now) ↦ inl ((f₁ i).1 (inr ((out-Ends (b ∷ s) at i here).1 now)))
            | inr (inr later) ↦ inr later
          ]),
        ),
      )
