-- ===== src/Base/Family.antt =====
-- Maps as functions, updated at one key, and sums over an initial segment of indices.
use Prim.Native.Nat.{ℕ, zero, suc, ◌+◌, ◌<◌}
use mathlib.Core.Path.{◌≡◌, refl, sym}
use mathlib.Core.Logic.{◌≢◌}
use native.Mathlib.Decide.{ℕ_discrete}
use native.Mathlib.Omega.{arith}
use yzapi.Base.Tests.{◌==◌, if◌then◌else◌}

abbrev pub update {ℓ} : {A : Type ℓ} → (ℕ → A) → ℕ → A → ℕ → A
update f i a j = if i == j then a else f j

-- for (i = 0; i < n; i++) total += f i
unfoldable pub sum_below : ℕ → (ℕ → ℕ) → ℕ
sum_below zero f = 0
sum_below (suc n) f = sum_below n f + f n

pub sum_below-add :
    (n : ℕ) (f g h : ℕ → ℕ)
    → ((i : ℕ) → i < n → h i ≡ f i + g i)
    → sum_below n h ≡ sum_below n f + sum_below n g
unfolding sum_below
sum_below-add zero f g h e = omega arith
sum_below-add (suc n) f g h e =
    omega (arith, e n (omega arith), sum_below-add n f g h (λ i l. e i (omega arith)))

pub sum_below-zero : (n : ℕ) (f : ℕ → ℕ) → ((i : ℕ) → i < n → f i ≡ 0) → sum_below n f ≡ 0
unfolding sum_below
sum_below-zero zero f e = refl
sum_below-zero (suc n) f e =
    omega (arith, e n (omega arith), sum_below-zero n f (λ i l. e i (omega arith)))

-- A sum with one term that may differ from zero is that term.
pub sum_below-single :
    (n k : ℕ) (f : ℕ → ℕ) → k < n → ((i : ℕ) → i < n → i ≢ k → f i ≡ 0) → sum_below n f ≡ f k
unfolding sum_below
sum_below-single zero k f lt e = absurd (omega arith)
sum_below-single (suc n) k f lt e = elim (ℕ_discrete k n) [
  | yes p ↦ rw p (omega (arith, sum_below-zero n f (λ i l. e i (omega arith) (λ q. omega arith))))
  | no d ↦ omega (
    arith,
    e n (omega arith) (λ q. d (sym q)),
    sum_below-single n k f (omega arith) (λ i l. e i (omega arith)),
  )
]

pub sum_below-eq :
    (n : ℕ) (f g : ℕ → ℕ) → ((i : ℕ) → i < n → f i ≡ g i) → sum_below n f ≡ sum_below n g
unfolding sum_below
sum_below-eq zero f g e = refl
sum_below-eq (suc n) f g e =
    omega (arith, e n (omega arith), sum_below-eq n f g (λ i l. e i (omega arith)))

module _ {ℓ} {A : Type ℓ} (f : ℕ → A) (i j : ℕ) (a : A) where
  pub update_self : i ≡ j → update f i a j ≡ a
  update_self e = ground arith

  pub update_other : i ≢ j → update f i a j ≡ f j
  update_other d = ground arith
