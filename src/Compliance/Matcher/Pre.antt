-- ===== src/Compliance/Matcher/Pre.antt =====
-- Prefixes of texts, for the texts that internal/compliance/aho.go reads; a text is held last byte first.
use yzapi.Base.{ℕ, ◌≤◌, ◌≡◌, refl, ◌⊎◌, inl, inr, [], ◌∷◌, ◌∙◌, sym, ap, length, arith, ap₂}
use yzapi.Health.Truncate.{Bytes}

abbrev pub Pre : Bytes → Bytes → Type 0
Pre [] p = Unit
Pre (x ∷ q) [] = ⊥
Pre (x ∷ q) (y ∷ p) = (x ≡ y) × Pre q p

pub Pre-refl : (q : Bytes) → Pre q q
Pre-refl [] = tt
Pre-refl (x ∷ q) = (refl, Pre-refl q)

pub Pre-trans : (q p r : Bytes) → Pre q p → Pre p r → Pre q r
Pre-trans [] p r a b = tt
Pre-trans (x ∷ q) [] r a b = absurd a
Pre-trans (x ∷ q) (y ∷ p) [] a b = absurd b
Pre-trans (x ∷ q) (y ∷ p) (z ∷ r) (e, a) (d, b) = (e ∙ d, Pre-trans q p r a b)

pub Pre-length : (q p : Bytes) → Pre q p → length q ≤ length p
Pre-length [] p a = omega arith
Pre-length (x ∷ q) [] a = absurd a
Pre-length (x ∷ q) (y ∷ p) (e, a) = omega (arith, Pre-length q p a)

-- Two prefixes of a text: the shorter one is a prefix of the longer one.
pub Pre-linear : (q p r : Bytes) → Pre q r → Pre p r → length q ≤ length p → Pre q p
Pre-linear [] p r a b l = tt
Pre-linear (x ∷ q) [] r a b l = absurd (omega arith)
Pre-linear (x ∷ q) (y ∷ p) [] a b l = absurd a
Pre-linear (x ∷ q) (y ∷ p) (z ∷ r) (e, a) (d, b) l = (e ∙ sym d, Pre-linear q p r a b (omega arith))

-- A prefix of the same length is the text.
pub Pre-eq : (q p : Bytes) → Pre q p → length p ≤ length q → q ≡ p
Pre-eq [] [] a l = refl
Pre-eq [] (y ∷ p) a l = absurd (omega arith)
Pre-eq (x ∷ q) [] a l = absurd a
Pre-eq (x ∷ q) (y ∷ p) (e, a) l = ap₂ (λ b r. b ∷ r) e (Pre-eq q p a (omega arith))

-- Two prefixes of a text that are as long as each other are the same.
pub Pre-same : (q p r : Bytes) → Pre q r → Pre p r → length q ≡ length p → q ≡ p
Pre-same q p r a b e = Pre-eq q p (Pre-linear q p r a b (omega arith)) (omega arith)

-- What is not empty and a prefix starts with the first byte.
pub Pre-cases :
    (q : Bytes) (b : ℕ) (r : Bytes)
    → Pre q (b ∷ r)
    → (q ≡ []) ⊎ ((p : Bytes) × (q ≡ b ∷ p) × Pre p r)
Pre-cases [] b r a = inl refl
Pre-cases (x ∷ q) b r (e, a) = inr (q, ap (λ c. c ∷ q) e, a)
