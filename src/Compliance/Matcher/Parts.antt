-- ===== src/Compliance/Matcher/Parts.antt =====
-- Patterns by their numbers, and the parts of a text, for internal/compliance/aho.go.
use yzapi.Base.{
  ℕ, zero, suc, ◌+◌, ◌≡◌, refl, sym, ap, ◌∙◌, ◌≢◌, inl, inr, Option, none, some, List, [], ◌∷◌,
  ◌++◌, subst, arith, List-cases, append_assoc, ap₂,
}
use mathlib.Core.Option.{none-ne-some, some-injective}
use mathlib.Core.List.{
  reverse, reverse_aux, append-ne-nil_of_right_ne-nil, reverse-append, reverse-reverse,
}
use yzapi.Health.Truncate.{Bytes}
use yzapi.Compliance.Matcher.Pre.{Pre}
use yzapi.Compliance.Matcher.Outputs.{Numbered}
use yzapi.Compliance.Matcher.Scan.{Ends, Follows}

abbrev pub get_elem? : List Bytes → ℕ → Option Bytes
get_elem? [] i = none
get_elem? (p ∷ ps) zero = some p
get_elem? (p ∷ ps) (suc i) = get_elem? ps i

-- `p` is a part of `text`
abbrev pub Contains : Bytes → Bytes → Type 0
Contains text p = (before : Bytes) × (after : Bytes) × (text ≡ before ++ (p ++ after))

Pre-append : (p s : Bytes) → Pre p s → (r : Bytes) × (s ≡ p ++ r)
Pre-append [] s a = (s, refl)
Pre-append (x ∷ p) [] a = absurd a
Pre-append (x ∷ p) (y ∷ s) (e, a) =
    let (r, f) = Pre-append p s a in (r, ap₂ (λ b u. b ∷ u) (sym e) f)

append-Pre : (p r : Bytes) → Pre p (p ++ r)
append-Pre [] r = tt
append-Pre (x ∷ p) r = (refl, append-Pre p r)

-- the numbers of the patterns
pub Numbered-get :
    (k : ℕ) (ps : List Bytes) (i : ℕ) (s : Bytes)
    → Numbered k ps i s
    → (j : ℕ) × (p : Bytes) × (i ≡ k + j) × (get_elem? ps j ≡ some p) × (p ≢ []) × (s ≡ reverse p)
Numbered-get k [] i s h = absurd h
Numbered-get k (p ∷ ps) i s (inl (e, f, d)) = (0, p, omega (arith, e), refl, d, f)
Numbered-get k (p ∷ ps) i s (inr h) =
    let (j, r, e, g, d, f) = Numbered-get (suc k) ps i s h in (suc j, r, omega (arith, e), g, d, f)

pub get-Numbered :
    (k : ℕ) (ps : List Bytes) (j : ℕ) (p : Bytes)
    → get_elem? ps j ≡ some p
    → p ≢ []
    → Numbered k ps (k + j) (reverse p)
get-Numbered k [] j p e d = absurd (none-ne-some p e)
get-Numbered k (r ∷ ps) zero p e d =
    let f = some-injective r p e in inl (omega arith, ap reverse (sym f), λ z. d (sym f ∙ z))
get-Numbered k (r ∷ ps) (suc j) p e d =
    inr (
      subst (λ i. Numbered (suc k) ps i (reverse p)) (omega arith)
        (get-Numbered (suc k) ps j p e d))

module _ (q : ℕ → Bytes → Type 0) where
  pub Follows-split :
      (i : ℕ) (text s : Bytes)
      → Follows q i s text
      → (u : Bytes) × (c : Bytes) × (text ≡ u ++ c) × Ends q i (reverse_aux u s)
  Follows-split i [] s h = absurd h
  Follows-split i (b ∷ text) s (inl h) = (b ∷ [], text, refl, h)
  Follows-split i (b ∷ text) s (inr h) =
      let (u, c, e, f) = Follows-split i text (b ∷ s) h in (b ∷ u, c, ap (λ r. b ∷ r) e, f)

  split-Follows :
      (i b : ℕ) (u c s : Bytes) → Ends q i (reverse_aux (b ∷ u) s) → Follows q i s ((b ∷ u) ++ c)
  split-Follows i b [] c s h = inl h
  split-Follows i b (d ∷ u) c s h = inr (split-Follows i d u c (b ∷ s) h)

-- What is read is the texts' parts, whichever way they are held.
pub Ends-Contains :
    (q : ℕ → Bytes → Type 0) (i : ℕ) (u c : Bytes)
    → Ends q i (reverse u)
    → (p : Bytes) × q i (reverse p) × Contains (u ++ c) p
Ends-Contains q i u c (w, a, h) =
    let (v, e) = Pre-append w (reverse u) a in
    (
      reverse w,
      subst (q i) (sym (reverse-reverse w)) h,
      (
        reverse v,
        c,
        ap (λ x. x ++ c) (sym (reverse-reverse u) ∙ ap reverse e ∙ reverse-append w v)
            ∙ append_assoc (reverse v) (reverse w) c,
      ),
    )

pub Contains-Follows :
    (q : ℕ → Bytes → Type 0) (i : ℕ) (p text : Bytes)
    → q i (reverse p)
    → p ≢ []
    → Contains text p
    → Follows q i [] text
Contains-Follows q i p text h d (a, c, e) = elim (List-cases (a ++ p)) [
  | inl z ↦ absurd (append-ne-nil_of_right_ne-nil a d z)
  | inr (b, u, f) ↦ subst (Follows q i []) (ap (λ x. x ++ c) (sym f) ∙ append_assoc a p c ∙ sym e) (
      split-Follows q i b u c [] (
        subst (Ends q i) (ap reverse f) (
          reverse p,
          subst (Pre (reverse p)) (sym (reverse-append a p)) (append-Pre (reverse p) (reverse a)),
          h,
        )))
]
