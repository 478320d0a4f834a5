-- ===== src/Compliance/Words.antt =====
-- The keyword pass of internal/compliance/compliance.go on the index that a reload builds: `idx.words`
-- beside the patterns.
use yzapi.Base.{
  ℕ, zero, suc, ◌≡◌, refl, sym, ap, ◌∙◌, ◌≢◌, inl, inr, ◌↔◌, true, false, some, List, [], ◌∷◌,
  Bool-cases, subst,
}
use yzapi.Base.Pick.{All}
use mathlib.Core.Bool.{true≢false}
use mathlib.Core.Option.{none-ne-some, some-injective}
use mathlib.Core.List.{Memᴰ}
use mathlib.Core.List.Memᴰ.{head, tail, not-nil, cases_cons}
use yzapi.Health.Truncate.{Bytes}
use yzapi.Compliance.{Go, Policy, WordEntry, HitEntry}
use yzapi.Compliance.Check.{is_nil, word_at, keyword_hit, hits_at}
use yzapi.Compliance.Reload.{SensitiveWord, pattern_of, load_words, word_entry}
use yzapi.Compliance.Matcher.Insert.{IsText}
use yzapi.Compliance.Matcher.Parts.{get_elem?, Contains}

is_nil-false : (s : Bytes) → s ≢ [] → is_nil s ≡ false
is_nil-false [] d = absurd (d refl)
is_nil-false (b ∷ s) d = refl

-- the loop over the numbers
abbrev pub InRange : List WordEntry → List ℕ → Type 0
InRange ws is = (i : ℕ) → Memᴰ i is → (w : WordEntry) × (word_at ws i ≡ some w)

pub hits_at_lem :
    (ws : List WordEntry) (is : List ℕ)
    → InRange ws is
    → (hits : List HitEntry) × (hits_at ws is ≡ some hits)
      × ((h : HitEntry)
          → Memᴰ h hits ↔ (
              (i : ℕ) × (w : WordEntry) × Memᴰ i is
              × (word_at ws i ≡ some w)
              × (h ≡ keyword_hit w)))
unfolding hits_at
hits_at_lem ws [] ok =
    ([], refl, λ h. (λ m. absurd (not-nil m), λ (i, w, m, _, _). absurd (not-nil m)))
hits_at_lem ws (i ∷ is) ok =
    let (w, e) = ok i (head refl) in
    let (hits, f, each) = hits_at_lem ws is (λ k m. ok k (tail m)) in
    (
      keyword_hit w ∷ hits,
      rw (e, f) refl,
      λ h. (
        λ m. elim (cases_cons m) [
          | inl same ↦ (i, w, head refl, e, same)
          | inr deep ↦ let (k, v, n, g, eq) = (each h).0 deep in (k, v, tail n, g, eq)
        ],
        λ (k, v, m, g, eq). elim (cases_cons m) [
          | inl same ↦
              head (eq ∙ ap keyword_hit (some-injective v w (sym g ∙ ap (word_at ws) same ∙ e)))
          | inr deep ↦ tail ((each h).1 (k, v, deep, g, eq))
        ],
      ),
    )

module _ (go : Go) (order : ℕ → List ℕ) (pol : ℕ → Policy) where
  load_skip :
      (w : SensitiveWord) (ws : List SensitiveWord)
      → is_nil (pattern_of go order w) ≡ true
      → load_words go order pol (w ∷ ws) ≡ load_words go order pol ws
  unfolding load_words
  load_skip w ws e = rw e refl

  abbrev kept : SensitiveWord → List SensitiveWord → List WordEntry × List Bytes
  kept w ws = (
    word_entry pol w ∷ (load_words go order pol ws).0,
    pattern_of go order w ∷ (load_words go order pol ws).1,
  )

  load_keep :
      (w : SensitiveWord) (ws : List SensitiveWord)
      → is_nil (pattern_of go order w) ≡ false
      → load_words go order pol (w ∷ ws) ≡ kept w ws
  unfolding load_words
  load_keep w ws e = rw e refl

  -- the words and the patterns of the loop, by their number
  abbrev WordsAt : List SensitiveWord → List WordEntry × List Bytes → Type 0
  WordsAt ws r =
      (i : ℕ) (p : Bytes)
      → get_elem? r.1 i ≡ some p
      → (w : SensitiveWord) × Memᴰ w ws
        × (p ≡ pattern_of go order w)
        × (word_at r.0 i ≡ some (word_entry pol w))

  kept-WordsAt :
      (w : SensitiveWord) (ws : List SensitiveWord)
      → WordsAt ws (load_words go order pol ws)
      → WordsAt (w ∷ ws) (kept w ws)
  kept-WordsAt w ws at zero p e =
      (w, head refl, sym (some-injective (pattern_of go order w) p e), refl)
  kept-WordsAt w ws at (suc i) p e = let (v, m, f, g) = at i p e in (v, tail m, f, g)

  load_words-WordsAt : (ws : List SensitiveWord) → WordsAt ws (load_words go order pol ws)
  unfolding load_words
  load_words-WordsAt [] = λ i p e. absurd (none-ne-some p e)
  load_words-WordsAt (w ∷ ws) = elim (Bool-cases (is_nil (pattern_of go order w))) [
    | inl e ↦
        subst (WordsAt (w ∷ ws)) (sym (load_skip w ws e))
          (λ i p g. let (v, m, f, h) = load_words-WordsAt ws i p g in (v, tail m, f, h))
    | inr e ↦
        subst (WordsAt (w ∷ ws)) (sym (load_keep w ws e))
          (kept-WordsAt w ws (load_words-WordsAt ws))
  ]

  abbrev pub PatternsAt : SensitiveWord → List WordEntry × List Bytes → Type 0
  PatternsAt w r =
      (i : ℕ) × (get_elem? r.1 i ≡ some (pattern_of go order w))
      × (word_at r.0 i ≡ some (word_entry pol w))

  pub load_words-PatternsAt :
      (ws : List SensitiveWord) (w : SensitiveWord)
      → Memᴰ w ws
      → pattern_of go order w ≢ []
      → PatternsAt w (load_words go order pol ws)
  load_words-PatternsAt [] w m d = absurd (not-nil m)
  load_words-PatternsAt (v ∷ ws) w m d = elim (Bool-cases (is_nil (pattern_of go order v))) [
    | inl e ↦ subst (PatternsAt w) (sym (load_skip v ws e)) (elim (cases_cons m) [
      | inl same ↦ absurd (
          true≢false (
            sym e
            ∙ ap (λ x. is_nil (pattern_of go order x)) (sym same)
            ∙ is_nil-false (pattern_of go order w) d))
      | inr deep ↦ load_words-PatternsAt ws w deep d
    ])
    | inr e ↦ subst (PatternsAt w) (sym (load_keep v ws e)) (elim (cases_cons m) [
      | inl same ↦ (
        0,
        ap (λ x. some (pattern_of go order x)) (sym same),
        ap (λ x. some (word_entry pol x)) (sym same),
      )
      | inr deep ↦ let (i, f, g) = load_words-PatternsAt ws w deep d in (suc i, f, g)
    ])
  ]

  pub texts :
      ((s : Bytes) → IsText (go.lower s))
      → (ws : List SensitiveWord) → All IsText (load_words go order pol ws).1
  unfolding load_words
  texts bytes [] = tt
  texts bytes (w ∷ ws) = elim (Bool-cases (is_nil (pattern_of go order w))) [
    | inl e ↦ rw (e, All) (texts bytes ws)
    | inr e ↦ rw (e, All) (bytes (go.trim w.word), texts bytes ws)
  ]

  -- a word of the rows is found in a text
  abbrev pub Occurs : List SensitiveWord → Bytes → SensitiveWord → Type 0
  Occurs ws text w =
      Memᴰ w ws × (pattern_of go order w ≢ []) × Contains (go.lower text) (pattern_of go order w)

  -- what `Match` lists are numbers of words, and of the words that occur
  pub listed-Occurs :
      (ws : List SensitiveWord) (text : Bytes) (i : ℕ)
      → ((p : Bytes) × (get_elem? (load_words go order pol ws).1 i ≡ some p)
          × (p ≢ [])
          × Contains (go.lower text) p)
        ↔ ((w : SensitiveWord) × Occurs ws text w
            × (get_elem? (load_words go order pol ws).1 i ≡ some (pattern_of go order w))
            × (word_at (load_words go order pol ws).0 i ≡ some (word_entry pol w)))
  listed-Occurs ws text i = (
    λ (p, e, d, c).
        let (w, m, f, g) = load_words-WordsAt ws i p e in
        (w, (m, (λ z. d (f ∙ z)), subst (Contains (go.lower text)) f c), e ∙ ap some f, g),
    λ (w, (m, d, c), e, g). (pattern_of go order w, e, d, c),
  )
