-- ===== src/Base/Pick.antt =====
-- Taking one element out of a list, and predicates over lists.
use mathlib.Core.Path.{◌≡◌, sym, subst, subst₂}
use mathlib.Core.Logic.{◌⊎◌, inl, inr}
use mathlib.Core.List.{List, [], ◌∷◌}
use mathlib.Core.Option.{Option, none, some}
use native.Mathlib.Omega.{arith}
use Prim.Native.Nat.{ℕ, zero, suc}
use yzapi.Base.Tests.{Option-cases}

module _ {ℓ} {A : Type ℓ} where
  -- the element at an index, and the list without it
  unfoldable pub pick : ℕ → List A → Option (A × List A)
  pick i [] = none
  pick zero (x ∷ xs) = some (x, xs)
  pick (suc i) (x ∷ xs) = elim (pick i xs) [ none ↦ none | some (y, left) ↦ some (y, x ∷ left) ]

  abbrev pub All {κ} : (A → Type κ) → List A → Type κ
  All P [] = Unit
  All P (x ∷ xs) = P x × All P xs

  abbrev pub Exists : (A → Type 0) → List A → Type 0
  Exists P [] = ⊥
  Exists P (x ∷ xs) = P x ⊎ Exists P xs

  pub pick-suc :
      (i : ℕ) (x : A) (xs : List A) (y : A) (left : List A)
      → pick (suc i) (x ∷ xs) ≡ some (y, left)
      → (rest : List A) × (pick i xs ≡ some (y, rest)) × (left ≡ x ∷ rest)
  unfolding pick
  pick-suc i x xs y left e = elim (Option-cases (pick i xs)) [
    | inl nothing ↦ absurd (ground arith)
    | inr ((z, rest), found) ↦ (rest, ground arith, ground arith)
  ]

  pub All-pick {κ} :
      (P : A → Type κ) (i : ℕ) (xs : List A) (y : A) (left : List A)
      → pick i xs ≡ some (y, left)
      → All P xs
      → P y × All P left
  unfolding pick
  All-pick P i [] y left e a = absurd (cc)
  All-pick P zero (x ∷ xs) y left e a =
      subst₂ (λ z l. P z × All P l) (ground arith) (ground arith) a
  All-pick P (suc i) (x ∷ xs) y left e a =
      let (rest, found, shape) = pick-suc i x xs y left e in
      let (py, others) = All-pick P i xs y rest found a.1 in
      subst (λ l. P y × All P l) (sym shape) (py, (a.0, others))

  pub Exists-pick :
      (P : A → Type 0) (i : ℕ) (xs : List A) (y : A) (left : List A)
      → pick i xs ≡ some (y, left)
      → Exists P xs
      → P y ⊎ Exists P left
  unfolding pick
  Exists-pick P i [] y left e a = absurd a
  Exists-pick P zero (x ∷ xs) y left e a =
      subst₂ (λ z l. P z ⊎ Exists P l) (ground arith) (ground arith) a
  Exists-pick P (suc i) (x ∷ xs) y left e a =
      let (rest, found, shape) = pick-suc i x xs y left e in
      subst (λ l. P y ⊎ Exists P l) (sym shape)
        (elim a [
          | inl here ↦ inr (inl here)
          | inr later ↦ elim (Exists-pick P i xs y rest found later) [
            | inl p ↦ inl p
            | inr q ↦ inr (inr q)
          ]
        ])

  pub All-map {κ λ'} :
      {P : A → Type κ} {Q : A → Type λ'} (xs : List A) → ((x : A) → P x → Q x) → All P xs → All Q xs
  All-map [] f a = tt
  All-map (x ∷ xs) f a = (f x a.0, All-map xs f a.1)
