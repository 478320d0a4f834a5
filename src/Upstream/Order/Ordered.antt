-- ===== src/Upstream/Order/Ordered.antt =====
-- The order that `orderUpstreams` of internal/gateway/handler.go makes, for any random numbers that
-- keep to the documented range of `rand.IntN`.
use mathlib.Core.List.{Permᴰ}
use mathlib.Core.List.Permᴰ
use yzapi.Base.{
  ℕ, zero, suc, ◌+◌, ◌-◌, ◌≤◌, ◌<◌, ◌≡◌, refl, sym, subst, ◌∙◌, ap, ap₂, inl, inr, false, some,
  List, [], ◌∷◌, ◌++◌, map, ltb, length, Bool-cases, Option-cases, arith,
}
use yzapi.Base.Int.{ℤ, eq_ℤ, eq_of_parts}
use yzapi.Base.Pick.{All}
use yzapi.Upstream.{Upstream}
use yzapi.Upstream.Order.{share, total, draw, shuffle, tier_of, tiers, order_upstreams}

draw-some :
    (r : ℕ) (tier : List Upstream)
    → r < total tier
    → (v : Upstream) × (rest : List Upstream) × (draw r tier ≡ some (v, rest))
unfolding draw total
draw-some r [] h = absurd (omega arith)
draw-some r (u ∷ tier) h = elim (Bool-cases (ltb r (share u))) [
  | inl e ↦ (u, tier, ground arith)
  | inr e ↦
      let (v, rest, found) = draw-some (r - share u) tier (ground arith) in
      (v, u ∷ rest, ground arith)
]

draw_later :
    (r : ℕ) (u v : Upstream) (tier rest : List Upstream)
    → ltb r (share u) ≡ false
    → draw r (u ∷ tier) ≡ some (v, rest)
    → (others : List Upstream) × (draw (r - share u) tier ≡ some (v, others)) × (rest ≡ u ∷ others)
unfolding draw
draw_later r u v tier rest past e = elim (Option-cases (draw (r - share u) tier)) [
  | inl nothing ↦ absurd (ground arith)
  | inr ((w, others), found) ↦ (others, ground arith, ground arith)
]

draw-Perm :
    (r : ℕ) (tier : List Upstream) (v : Upstream) (rest : List Upstream)
    → draw r tier ≡ some (v, rest)
    → Permᴰ (v ∷ rest) tier
unfolding draw
draw-Perm r [] v rest e = absurd (ground arith)
draw-Perm r (u ∷ tier) v rest e = elim (Bool-cases (ltb r (share u))) [
  | inl here ↦ subst (λ l. Permᴰ l (u ∷ tier)) (ground arith) (Permᴰ.refl (u ∷ tier))
  | inr later ↦
      let (others, found, shape) = draw_later r u v tier rest later e in
      subst (λ l. Permᴰ (v ∷ l) (u ∷ tier)) (sym shape)
        (Permᴰ.trans (Permᴰ.swap refl refl)
          (Permᴰ.cons refl (draw-Perm (r - share u) tier v others found)))
]

draw-length :
    (r : ℕ) (tier : List Upstream) (v : Upstream) (rest : List Upstream)
    → draw r tier ≡ some (v, rest)
    → suc (length rest) ≡ length tier
unfolding draw
draw-length r [] v rest e = absurd (ground arith)
draw-length r (u ∷ tier) v rest e = elim (Bool-cases (ltb r (share u))) [
  | inl here ↦ ground arith
  | inr later ↦
      let (others, found, shape) = draw_later r u v tier rest later e in
      ground (arith, draw-length (r - share u) tier v others found)
]

draw-All :
    (P : Upstream → Type 0) (r : ℕ) (tier : List Upstream) (v : Upstream) (rest : List Upstream)
    → draw r tier ≡ some (v, rest)
    → All P tier
    → P v × All P rest
unfolding draw
draw-All P r [] v rest e all = absurd (ground arith)
draw-All P r (u ∷ tier) v rest e all = elim (Bool-cases (ltb r (share u))) [
  | inl here ↦ subst {A = Upstream × List Upstream} (λ x. P x.0 × All P x.1) (ground arith) all
  | inr later ↦
      let (others, found, shape) = draw_later r u v tier rest later e in
      let (pv, ps) = draw-All P (r - share u) tier v others found all.1 in
      subst (λ l. P v × All P l) (sym shape) (pv, (all.0, ps))
]

abbrev copies : ℕ → ℤ → List ℤ
copies zero p = []
copies (suc n) p = p ∷ copies n p

abbrev priorities : List Upstream → List ℤ
priorities = map (λ u. u.priority)

abbrev SamePriority : ℤ → List Upstream → Type 0
SamePriority p = All (λ u. u.priority ≡ p)

priorities-SamePriority :
    (p : ℤ) (tier : List Upstream) → SamePriority p tier → priorities tier ≡ copies (length tier) p
priorities-SamePriority p [] all = refl
priorities-SamePriority p (u ∷ tier) all =
    ap₂ (λ x xs. x ∷ xs) all.0 (priorities-SamePriority p tier all.1)

priorities-append : (xs ys : List Upstream) → priorities (xs ++ ys) ≡ priorities xs ++ priorities ys
priorities-append [] ys = refl
priorities-append (x ∷ xs) ys = ap (λ l. x.priority ∷ l) (priorities-append xs ys)

tier_of-append : (u : Upstream) (ups : List Upstream) → (tier_of u ups).0 ++ (tier_of u ups).1 ≡ ups
unfolding tier_of
tier_of-append u [] = refl
tier_of-append u (v ∷ ups) = elim (Bool-cases (eq_ℤ v.priority u.priority)) [
  | inl e ↦ rw e (ap (λ l. v ∷ l) (tier_of-append u ups))
  | inr e ↦ rw e refl
]

tier_of-SamePriority :
    (u : Upstream) (ups : List Upstream) → SamePriority u.priority (tier_of u ups).0
unfolding tier_of
tier_of-SamePriority u [] = tt
tier_of-SamePriority u (v ∷ ups) = elim (Bool-cases (eq_ℤ v.priority u.priority)) [
  | inl e ↦ rw e (eq_of_parts v.priority u.priority (ground arith), tier_of-SamePriority u ups)
  | inr e ↦ rw e tt
]

tier_of-length : (u : Upstream) (ups : List Upstream) → length (tier_of u ups).1 ≤ length ups
unfolding tier_of
tier_of-length u [] = ground arith
tier_of-length u (v ∷ ups) = ground (arith, tier_of-length u ups)

-- The random numbers are in the documented range.
abbrev pub InRange : (ℕ → ℕ → ℕ) → Type 0
InRange int_n = (k n : ℕ) → 0 < n → int_n k n < n

module _ (int_n : ℕ → ℕ → ℕ) where
  shuffle-draw :
      (fuel k : ℕ) (u v : Upstream) (tier rest : List Upstream)
      → draw (int_n k (total (u ∷ tier))) (u ∷ tier) ≡ some (v, rest)
      → shuffle int_n (suc fuel) k (u ∷ tier) ≡ v ∷ shuffle int_n fuel (suc k) rest
  unfolding shuffle
  shuffle-draw fuel k u v tier rest found = rw (found, shuffle) refl

  drawn :
      (k : ℕ) (u : Upstream) (tier : List Upstream)
      → InRange int_n
      → (v : Upstream) × (rest : List Upstream) × (draw (int_n k (total (u ∷ tier))) (u ∷ tier)
          ≡ some (v, rest))
  unfolding total
  drawn k u tier fair =
      draw-some (int_n k (total (u ∷ tier))) (u ∷ tier) (fair k (total (u ∷ tier)) (ground arith))

  shuffle-Perm :
      (fuel k : ℕ) (tier : List Upstream)
      → InRange int_n
      → length tier ≡ fuel
      → Permᴰ (shuffle int_n fuel k tier) tier
  unfolding shuffle
  shuffle-Perm zero k [] fair e = Permᴰ.nil
  shuffle-Perm zero k (u ∷ tier) fair e = absurd (omega arith)
  shuffle-Perm (suc fuel) k [] fair e = Permᴰ.nil
  shuffle-Perm (suc fuel) k (u ∷ tier) fair e =
      let (v, rest, found) = drawn k u tier fair in
      let size = draw-length (int_n k (total (u ∷ tier))) (u ∷ tier) v rest found in
      subst (λ l. Permᴰ l (u ∷ tier)) (sym (shuffle-draw fuel k u v tier rest found))
        (Permᴰ.trans (Permᴰ.cons refl (shuffle-Perm fuel (suc k) rest fair (omega arith)))
          (draw-Perm (int_n k (total (u ∷ tier))) (u ∷ tier) v rest found))

  shuffle-copies :
      (fuel k : ℕ) (p : ℤ) (tier : List Upstream)
      → InRange int_n
      → length tier ≡ fuel
      → SamePriority p tier
      → priorities (shuffle int_n fuel k tier) ≡ copies fuel p
  unfolding shuffle
  shuffle-copies zero k p [] fair e all = refl
  shuffle-copies zero k p (u ∷ tier) fair e all = absurd (omega arith)
  shuffle-copies (suc fuel) k p [] fair e all = absurd (omega arith)
  shuffle-copies (suc fuel) k p (u ∷ tier) fair e all =
      let (v, rest, found) = drawn k u tier fair in
      let size = draw-length (int_n k (total (u ∷ tier))) (u ∷ tier) v rest found in
      let (pv, ps) =
        draw-All (λ w. w.priority ≡ p) (int_n k (total (u ∷ tier))) (u ∷ tier) v rest found all in
      ap priorities (shuffle-draw fuel k u v tier rest found)
      ∙ ap₂ (λ x xs. x ∷ xs) pv (shuffle-copies fuel (suc k) p rest fair (omega arith) ps)

  tiers-Perm :
      (fuel k : ℕ) (ups : List Upstream)
      → InRange int_n
      → length ups ≤ fuel
      → Permᴰ (tiers int_n fuel k ups) ups
  unfolding tiers
  tiers-Perm zero k [] fair e = Permᴰ.nil
  tiers-Perm zero k (u ∷ ups) fair e = absurd (omega arith)
  tiers-Perm (suc fuel) k [] fair e = Permᴰ.nil
  tiers-Perm (suc fuel) k (u ∷ ups) fair e =
      let (same, rest) = tier_of u ups in
      subst (λ l. Permᴰ (tiers int_n (suc fuel) k (u ∷ ups)) (u ∷ l)) (tier_of-append u ups)
        (Permᴰ.trans
          (Permᴰ.append_right (tiers int_n fuel (k + length (u ∷ same)) rest)
            (shuffle-Perm (length (u ∷ same)) k (u ∷ same) fair refl))
          (Permᴰ.append_left (u ∷ same) (
            tiers-Perm fuel (k + length (u ∷ same)) rest fair
              (omega (arith, tier_of-length u ups)))))

  tiers-priorities :
      (fuel k : ℕ) (ups : List Upstream)
      → InRange int_n
      → length ups ≤ fuel
      → priorities (tiers int_n fuel k ups) ≡ priorities ups
  unfolding tiers
  tiers-priorities zero k [] fair e = refl
  tiers-priorities zero k (u ∷ ups) fair e = absurd (omega arith)
  tiers-priorities (suc fuel) k [] fair e = refl
  tiers-priorities (suc fuel) k (u ∷ ups) fair e =
      let (same, rest) = tier_of u ups in
      let alike : SamePriority u.priority (u ∷ same) = (refl, tier_of-SamePriority u ups) in
      let n = length (u ∷ same) in
      priorities-append (shuffle int_n n k (u ∷ same)) (tiers int_n fuel (k + n) rest)
      ∙ ap₂ (λ x xs. x ++ xs)
          (shuffle-copies n k u.priority (u ∷ same) fair refl alike
            ∙ sym (priorities-SamePriority u.priority (u ∷ same) alike))
          (tiers-priorities fuel (k + n) rest fair (omega (arith, tier_of-length u ups)))
      ∙ sym (priorities-append (u ∷ same) rest)
      ∙ ap (λ l. u.priority ∷ priorities l) (tier_of-append u ups)

  -- The result is a permutation of the accounts, and each place in it keeps the priority that was
  -- in that place: the tiers stay in order and only accounts of one tier change places.
  pub order_upstreams_lem :
      (ups : List Upstream)
      → InRange int_n
      → Permᴰ (order_upstreams int_n ups) ups
        × (priorities (order_upstreams int_n ups) ≡ priorities ups)
  unfolding order_upstreams
  order_upstreams_lem ups fair = elim (Bool-cases (ltb (length ups) 2)) [
    | inl few ↦ rw few (Permᴰ.refl ups, refl)
    | inr many ↦ rw many (
      tiers-Perm (length ups) 0 ups fair (omega arith),
      tiers-priorities (length ups) 0 ups fair (omega arith),
    )
  ]
