-- ===== src/FirstContent/Cut.antt =====
-- Where the first event of a buffer ends, in internal/gateway/firstcontent.go.
use yzapi.Base.{
  ℕ, zero, suc, ◌+◌, ◌≤◌, ◌≡◌, refl, sym, ap, ◌∙◌, inl, inr, Bool-cases, Option, none, some, [],
  ◌∷◌, ◌++◌, ltb, length, take, if◌then◌else◌, arith,
}
use yzapi.FirstContent.{lf, crlf, has_prefix, next_place, index, choose, separator, drop}
use yzapi.Health.Truncate.{Bytes}

extend : ℕ → Option (Bytes × Bytes) → Option (Bytes × Bytes)
extend x none = none
extend x (some (e, r)) = some (x ∷ e, r)

-- The first event and what follows it, found in one pass
unfoldable pub split : Bytes → Option (Bytes × Bytes)
unfolding extend has_prefix
split [] = none
split (x ∷ s) =
    let rest = split s in
    if has_prefix lf (x ∷ s)
    then some ([], drop 2 (x ∷ s))
    else if has_prefix crlf (x ∷ s)
    then some ([], drop 4 (x ∷ s))
    else extend x rest

abbrev pub cut : Option (ℕ × ℕ) → Bytes → Option (Bytes × Bytes)
cut none b = none
cut (some (i, sep)) b = some (take i b, drop (i + sep) b)

drop-cons : (i sep x : ℕ) (s : Bytes) → drop (suc i + sep) (x ∷ s) ≡ drop (i + sep) s
drop-cons i sep x s =
    let e : suc i + sep ≡ suc (i + sep) = omega arith in ap (λ n. drop n (x ∷ s)) e

cut-next :
    (u v : Option ℕ) (x : ℕ) (s : Bytes)
    → cut (choose (next_place u) (next_place v)) (x ∷ s) ≡ extend x (cut (choose u v) s)
unfolding extend
cut-next none none x s = refl
cut-next (some i) none x s = ap (λ r. some (x ∷ take i s, r)) (drop-cons i 2 x s)
cut-next none (some j) x s = ap (λ r. some (x ∷ take j s, r)) (drop-cons j 4 x s)
cut-next (some i) (some j) x s =
    let same : ltb (suc j) (suc i) ≡ ltb j i = ground arith in
    elim (Bool-cases (ltb j i)) [
      | inl e ↦ rw (same, e) (ap (λ r. some (x ∷ take j s, r)) (drop-cons j 4 x s))
      | inr e ↦ rw (same, e) (ap (λ r. some (x ∷ take i s, r)) (drop-cons i 2 x s))
    ]

choose_lf : (v : Option ℕ) → choose (some 0) v ≡ some (0, 2)
choose_lf none = refl
choose_lf (some j) = ground arith

choose_crlf : (u : Option ℕ) → choose (next_place u) (some 0) ≡ some (0, 4)
choose_crlf none = refl
choose_crlf (some i) = ground arith

-- The two searches of the code and the single pass agree.
pub cut-separator : (b : Bytes) → cut (separator b) b ≡ split b
unfolding separator index split extend has_prefix
cut-separator [] = refl
cut-separator (x ∷ s) = elim (Bool-cases (has_prefix lf (x ∷ s))) [
  | inl e ↦ rw e (ap (λ c. cut c (x ∷ s)) (choose_lf (index crlf (x ∷ s))))
  | inr e ↦ elim (Bool-cases (has_prefix crlf (x ∷ s))) [
    | inl e' ↦ rw (e, e') (ap (λ c. cut c (x ∷ s)) (choose_crlf (index lf s)))
    | inr e' ↦
        rw (e, e') (cut-next (index lf s) (index crlf s) x s ∙ ap (extend x) (cut-separator s))
  ]
]

extend-some :
    (x : ℕ) (o : Option (Bytes × Bytes)) (e r : Bytes)
    → extend x o ≡ some (e, r)
    → (e' : Bytes) × (o ≡ some (e', r)) × (e ≡ x ∷ e')
unfolding extend
extend-some x none e r h = absurd (ground arith)
extend-some x (some (e', r')) e r h = (e', ground arith, ground arith)

pub split-append : (a b e r : Bytes) → split a ≡ some (e, r) → split (a ++ b) ≡ some (e, r ++ b)
unfolding split extend has_prefix
split-append [] b e r h = absurd (ground arith)
split-append (x ∷ []) b e r h = absurd (ground arith)
split-append (x ∷ y ∷ []) b e r h = ground arith
split-append (x ∷ y ∷ z ∷ []) b e r h = ground arith
split-append (x ∷ y ∷ z ∷ w ∷ t) b e r h = elim (Bool-cases (has_prefix lf (x ∷ y ∷ z ∷ w ∷ t))) [
  | inl e1 ↦ let h' = rw e1 at h in rw e1 (ground arith)
  | inr e1 ↦ elim (Bool-cases (has_prefix crlf (x ∷ y ∷ z ∷ w ∷ t))) [
    | inl e2 ↦ let h' = rw (e1, e2) at h in rw (e1, e2) (ground arith)
    | inr e2 ↦
        let h' = rw (e1, e2) at h in
        let (e', known, shape) = extend-some x (split (y ∷ z ∷ w ∷ t)) e r h' in
        rw (e1, e2)
          (ap (extend x) (split-append (y ∷ z ∷ w ∷ t) b e' r known)
            ∙ ap (λ q. some (q, r ++ b)) (sym shape))
  ]
]

drop_le : (n : ℕ) (s : Bytes) → length (drop n s) ≤ length s
drop_le zero s = omega arith
drop_le (suc n) [] = omega arith
drop_le (suc n) (x ∷ s) = omega (arith, drop_le n s)

pub split-shorter : (a e r : Bytes) → split a ≡ some (e, r) → suc (length r) ≤ length a
unfolding split extend has_prefix
split-shorter [] e r h = absurd (ground arith)
split-shorter (x ∷ s) e r h = elim (Bool-cases (has_prefix lf (x ∷ s))) [
  | inl e1 ↦ let h' = rw e1 at h in ground (arith, drop_le 1 s)
  | inr e1 ↦ elim (Bool-cases (has_prefix crlf (x ∷ s))) [
    | inl e2 ↦ let h' = rw (e1, e2) at h in ground (arith, drop_le 3 s)
    | inr e2 ↦
        let h' = rw (e1, e2) at h in
        let (e', known, shape) = extend-some x (split s) e r h' in
        ground (arith, split-shorter s e' r known)
  ]
]
