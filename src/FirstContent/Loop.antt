-- ===== src/FirstContent/Loop.antt =====
-- The loop of `Write` in internal/gateway/firstcontent.go, before and after more bytes come.
use yzapi.Base.{
  ℕ, zero, suc, ◌≤◌, ◌≡◌, refl, sym, ap, ◌∙◌, subst, ◌⊎◌, inl, inr, Bool, true, false, Bool-cases,
  Option, none, some, Option-cases, [], ◌++◌, length, if◌then◌else◌, arith,
}
use yzapi.FirstContent.{Writer, separator, drain}
use yzapi.FirstContent.Cut.{cut, cut-separator, split, split-append, split-shorter}
use yzapi.Health.Truncate.{Bytes}

-- what comes after a piece that the loop has been over
abbrev pub more : Writer → Bytes → Writer
more f b = if f.found then f else record f { buf = f.buf ++ b }

abbrev pred : ℕ → ℕ
pred zero = zero
pred (suc n) = n

pred_le : (n a : ℕ) → suc a ≤ n → a ≤ pred n
pred_le zero a le = absurd (omega arith)
pred_le (suc n) a le = omega arith

-- a writer that has not found content, and one that just has
abbrev pub searching : ℕ → Bytes → Writer
searching c buf = record { found = false; buf = buf; calls = c }

abbrev pub hit : ℕ → Writer
hit c = record { found = true; buf = []; calls = suc c }

-- `onFirst` is called once if content is found, and not otherwise.
abbrev pub Once : Writer → Type 0
Once f = ((f.found ≡ false) × (f.calls ≡ 0)) ⊎ ((f.found ≡ true) × (f.calls ≡ 1))

module _ (has_content : Bytes → Bool) where
  -- a round of the loop, of the event that it finds
  abbrev round : ℕ → Writer → Option (Bytes × Bytes) → Writer
  round n f none = f
  round n f (some (e, r)) =
      if f.found
      then f
      else if has_content e
      then record { found = true; buf = []; calls = suc f.calls }
      else drain has_content n (record f { buf = r })

  drain-round : (n : ℕ) (f : Writer) → drain has_content (suc n) f ≡ round n f (split f.buf)
  unfolding drain
  drain-round n f =
      elim (Option-cases (separator f.buf)) [
        | inl s ↦ rw (s, drain) refl
        | inr ((i, sep), s) ↦ rw (s, drain) refl
      ]
      ∙ ap (round n f) (cut-separator f.buf)

  drain-none : (n : ℕ) (f : Writer) → split f.buf ≡ none → drain has_content n f ≡ f
  unfolding drain
  drain-none zero f e = refl
  drain-none (suc n) f e = drain-round n f ∙ ap (round n f) e

  pub drain-found : (n : ℕ) (f : Writer) → f.found ≡ true → drain has_content n f ≡ f
  unfolding drain
  drain-found zero f e = refl
  drain-found (suc n) f e = drain-round n f ∙ (elim (Option-cases (split f.buf)) [
    | inl s ↦ ap (round n f) s
    | inr ((ev, r), s) ↦ ap (round n f) s ∙ rw e refl
  ])

  drain-some :
      (n c : ℕ) (buf e r : Bytes)
      → split buf ≡ some (e, r)
      → length buf ≤ n
      → drain has_content n (searching c buf)
        ≡ (if has_content e then hit c else drain has_content (pred n) (searching c r))
  drain-some zero c buf e r s le = let less = split-shorter buf e r s in absurd (omega arith)
  drain-some (suc n) c buf e r s le =
      drain-round n (searching c buf) ∙ ap (round n (searching c buf)) s

  -- Fuel for every byte is enough.
  pub drain_enough :
      (n m c : ℕ) (buf : Bytes)
      → length buf ≤ n
      → length buf ≤ m
      → drain has_content n (searching c buf) ≡ drain has_content m (searching c buf)
  drain_enough zero m c buf ln lm = elim (Option-cases (split buf)) [
    | inl s ↦ drain-none zero (searching c buf) s ∙ sym (drain-none m (searching c buf) s)
    | inr ((e, r), s) ↦ let less = split-shorter buf e r s in absurd (omega arith)
  ]
  drain_enough (suc n) m c buf ln lm = elim (Option-cases (split buf)) [
    | inl s ↦ drain-none (suc n) (searching c buf) s ∙ sym (drain-none m (searching c buf) s)
    | inr ((e, r), s) ↦
        let less = split-shorter buf e r s in
        drain-some (suc n) c buf e r s ln
        ∙ ap (λ f. if has_content e then hit c else f)
            (drain_enough n (pred m) c r (omega arith) (pred_le m _ (omega arith)))
        ∙ sym (drain-some m c buf e r s lm)
  ]

  -- A piece may come before the loop or after it.
  pub drain-more :
      (k c : ℕ) (buf b : Bytes) (n m : ℕ)
      → length buf ≤ k
      → length (buf ++ b) ≤ n
      → length (buf ++ b) ≤ m
      → drain has_content n (searching c (buf ++ b))
        ≡ drain has_content m (more (drain has_content k (searching c buf)) b)
  drain-more zero c buf b n m lk ln lm = elim (Option-cases (split buf)) [
    | inl s ↦
        drain_enough n m c (buf ++ b) ln lm
        ∙ ap (λ f. drain has_content m (more f b)) (sym (drain-none zero (searching c buf) s))
    | inr ((e, r), s) ↦ let less = split-shorter buf e r s in absurd (omega arith)
  ]
  drain-more (suc k) c buf b n m lk ln lm = elim (Option-cases (split buf)) [
    | inl s ↦
        drain_enough n m c (buf ++ b) ln lm
        ∙ ap (λ f. drain has_content m (more f b)) (sym (drain-none (suc k) (searching c buf) s))
    | inr ((e, r), s) ↦
        let less = split-shorter buf e r s in
        let fewer = split-shorter (buf ++ b) e (r ++ b) (split-append buf b e r s) in
        drain-some n c (buf ++ b) e (r ++ b) (split-append buf b e r s) ln
        ∙ (elim (Bool-cases (has_content e)) [
          | inl yes_content ↦ rw yes_content (sym (drain-found m (hit c) refl))
          | inr no_content ↦ rw no_content (
              drain-more k c r b (pred n) m (omega arith) (pred_le n _ (omega arith)) (omega arith))
        ])
        ∙ ap (λ f. drain has_content m (more f b)) (sym (drain-some (suc k) c buf e r s lk))
  ]

  pub length-drain :
      (n c : ℕ) (buf : Bytes) → length (drain has_content n (searching c buf)).buf ≤ length buf
  unfolding drain
  length-drain zero c buf = omega arith
  length-drain (suc n) c buf =
      subst (λ g. length g.buf ≤ length buf) (sym (drain-round n (searching c buf)))
        (elim (Option-cases (split buf)) [
          | inl s ↦ rw s (omega arith)
          | inr ((e, r), s) ↦
              let less = split-shorter buf e r s in
              let rest = length-drain n c r in
              rw s (elim (Bool-cases (has_content e)) [
                | inl y ↦ rw y (omega arith)
                | inr y ↦ rw y (omega arith)
              ])
        ])

  pub drain-Once : (n : ℕ) (buf : Bytes) → Once (drain has_content n (searching 0 buf))
  unfolding drain
  drain-Once zero buf = inl (refl, refl)
  drain-Once (suc n) buf =
      subst Once (sym (drain-round n (searching 0 buf))) (elim (Option-cases (split buf)) [
        | inl s ↦ rw s (inl (refl, refl))
        | inr ((e, r), s) ↦ rw s (elim (Bool-cases (has_content e)) [
          | inl y ↦ rw y (inr (refl, refl))
          | inr y ↦ rw y (drain-Once n r)
        ])
      ])

  separator-none : (b : Bytes) → split b ≡ none → separator b ≡ none
  separator-none b e = elim (Option-cases (separator b)) [
    | inl s ↦ s
    | inr ((i, sep), s) ↦
        let same = cut-separator b in
        let cuts : cut (separator b) b ≡ cut (some (i, sep)) b = ap (λ o. cut o b) s in absurd (cc)
  ]

  -- The loop of `Write` ends: with fuel for every byte of the buffer it stops because content is found or
  -- because no separator is left, never because the fuel is used up.
  pub drain_ends :
      (n c : ℕ) (buf : Bytes)
      → length buf ≤ n
      → ((drain has_content n (searching c buf)).found ≡ true)
        ⊎ (separator (drain has_content n (searching c buf)).buf ≡ none)
  unfolding drain
  drain_ends zero c buf le = elim (Option-cases (split buf)) [
    | inl s ↦ inr (separator-none buf s)
    | inr ((e, r), s) ↦ let less = split-shorter buf e r s in absurd (omega arith)
  ]
  drain_ends (suc n) c buf le = elim (Option-cases (split buf)) [
    | inl s ↦ rw (drain-none (suc n) (searching c buf) s) (inr (separator-none buf s))
    | inr ((e, r), s) ↦
        let less = split-shorter buf e r s in
        rw (drain-some (suc n) c buf e r s le) (elim (Bool-cases (has_content e)) [
          | inl y ↦ rw y (inl refl)
          | inr y ↦ rw y (drain_ends n c r (omega arith))
        ])
  ]
