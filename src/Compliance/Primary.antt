-- ===== src/Compliance/Primary.antt =====
-- `aggregate` of internal/compliance/compliance.go: the hit that a verdict reports.
use yzapi.Base.{
  ℕ, String, ◌+◌, ◌≤◌, ◌≡◌, refl, sym, ap, ◌∙◌, ◌⊎◌, inl, inr, ◌↔◌, true, false, some, List, [],
  ◌∷◌, Bool-cases, if◌then◌else◌, arith, subst,
}
use yzapi.Base.Pick.{All}
use mathlib.Core.List.{Memᴰ}
use mathlib.Core.List.Memᴰ.{head, tail, not-nil, cases_cons}
use yzapi.Compliance.{Go, HitEntry, Verdict}
use yzapi.Compliance.Check.{
  blocks, no_verdict, risk_rank, less, insert_hit, sort_stable, aggregate, verdict_of,
}

-- a hit that reports the verdict
abbrev pub Reports : HitEntry → Verdict → Type 0
Reports p v =
    (v.policy ≡ p.policy)
    × (v.detect_method ≡ some p.method)
    × (v.evidence ≡ p.evidence)
    × (v.confidence ≡ p.score)

mem-All :
    (P : HitEntry → Type 0) (hits : List HitEntry)
    → ((h : HitEntry) → Memᴰ h hits → P h)
    → All P hits
mem-All P [] f = tt
mem-All P (h ∷ hits) f = (f h (head refl), mem-All P hits (λ x m. f x (tail m)))

module _ (go : Go) where
  -- a blocking hit is above all others, and then the risk decides
  abbrev pub urgency : HitEntry → ℕ
  urgency h =
      if blocks h.policy
      then 4 + risk_rank go h.policy.risk_level
      else risk_rank go h.policy.risk_level

  risk_rank-le : (level : String) → risk_rank go level ≤ 3
  unfolding risk_rank
  risk_rank-le level = ground arith

  less-urgency : (a b : HitEntry) → less go a b ≡ true → urgency b ≤ urgency a
  less-urgency a b e =
      ground (arith, risk_rank-le a.policy.risk_level, risk_rank-le b.policy.risk_level)

  not_less-urgency : (a b : HitEntry) → less go a b ≡ false → urgency a ≤ urgency b
  not_less-urgency a b e =
      ground (arith, risk_rank-le a.policy.risk_level, risk_rank-le b.policy.risk_level)

  -- the hits of a list, all no more urgent than the first
  IsLed : List HitEntry → Type 0
  IsLed [] = Unit
  IsLed (p ∷ rest) = (h : HitEntry) → Memᴰ h (p ∷ rest) → urgency h ≤ urgency p

  insert_hit-mem :
      (h x : HitEntry) (xs : List HitEntry) → Memᴰ x (insert_hit go h xs) ↔ Memᴰ x (h ∷ xs)
  unfolding insert_hit
  insert_hit-mem h x [] = (λ m. m, λ m. m)
  insert_hit-mem h x (y ∷ ys) = elim (Bool-cases (less go y h)) [
    | inl e ↦
        rw (e, insert_hit)
          (
            λ m. elim (cases_cons m) [
              | inl same ↦ tail (head same)
              | inr deep ↦ elim (cases_cons ((insert_hit-mem h x ys).0 deep)) [
                | inl same ↦ head same
                | inr old ↦ tail (tail old)
              ]
            ],
            λ m. elim (cases_cons m) [
              | inl same ↦ tail ((insert_hit-mem h x ys).1 (head same))
              | inr old ↦ elim (cases_cons old) [
                | inl same ↦ head same
                | inr deep ↦ tail ((insert_hit-mem h x ys).1 (tail deep))
              ]
            ],
          )
    | inr e ↦ rw (e, insert_hit) (λ m. m, λ m. m)
  ]

  sort_stable-mem :
      (x : HitEntry) (hits : List HitEntry) → Memᴰ x (sort_stable go hits) ↔ Memᴰ x hits
  unfolding sort_stable
  sort_stable-mem x [] = (λ m. m, λ m. m)
  sort_stable-mem x (h ∷ hits) = (
    λ m. elim (cases_cons ((insert_hit-mem h x (sort_stable go hits)).0 m)) [
      | inl same ↦ head same
      | inr old ↦ tail ((sort_stable-mem x hits).0 old)
    ],
    λ m. (insert_hit-mem h x (sort_stable go hits)).1 (elim (cases_cons m) [
      | inl same ↦ head same
      | inr old ↦ tail ((sort_stable-mem x hits).1 old)
    ]),
  )

  urgency_same : (a b : HitEntry) → a ≡ b → urgency a ≡ urgency b
  urgency_same a b e = ap urgency e

  insert_hit-IsLed : (h : HitEntry) (xs : List HitEntry) → IsLed xs → IsLed (insert_hit go h xs)
  unfolding insert_hit IsLed
  insert_hit-IsLed h [] led = λ x m. elim (cases_cons m) [
    | inl same ↦ omega (arith, urgency_same x h same)
    | inr none_left ↦ absurd (not-nil none_left)
  ]
  insert_hit-IsLed h (y ∷ ys) led = elim (Bool-cases (less go y h)) [
    | inl e ↦
        rw (e, IsLed)
          (λ x m. elim (cases_cons m) [
            | inl same ↦ omega (arith, urgency_same x y same)
            | inr deep ↦ elim (cases_cons ((insert_hit-mem h x ys).0 deep)) [
              | inl same ↦ omega (arith, urgency_same x h same, less-urgency y h e)
              | inr old ↦ led x (tail old)
            ]
          ])
    | inr e ↦
        rw (e, IsLed)
          (λ x m. elim (cases_cons m) [
            | inl same ↦ omega (arith, urgency_same x h same)
            | inr old ↦ omega (arith, led x old, not_less-urgency y h e)
          ])
  ]

  sort_stable-IsLed : (hits : List HitEntry) → IsLed (sort_stable go hits)
  unfolding sort_stable IsLed
  sort_stable-IsLed [] = tt
  sort_stable-IsLed (h ∷ hits) = insert_hit-IsLed h (sort_stable go hits) (sort_stable-IsLed hits)

  reported :
      (hits sorted : List HitEntry)
      → ((x : HitEntry) → Memᴰ x sorted ↔ Memᴰ x hits)
      → IsLed sorted
      → ((hits ≡ []) × (verdict_of hits sorted ≡ no_verdict))
        ⊎ ((p : HitEntry) × Memᴰ p hits
            × Reports p (verdict_of hits sorted)
            × ((verdict_of hits sorted).hit ≡ true)
            × ((verdict_of hits sorted).block ≡ blocks p.policy)
            × ((h : HitEntry) → Memᴰ h hits → urgency h ≤ urgency p))
  unfolding IsLed
  reported [] [] same led = inl (refl, refl)
  reported (h ∷ hits) [] same led = absurd (not-nil ((same h).1 (head refl)))
  reported hits (p ∷ rest) same led =
      inr (
        p,
        (same p).0 (head refl),
        (refl, refl, refl, refl),
        refl,
        refl,
        λ h m. led h ((same h).1 m),
      )

  blocks_above :
      (h p : HitEntry) → blocks h.policy ≡ true → urgency h ≤ urgency p → blocks p.policy ≡ true
  blocks_above h p e le = elim (Bool-cases (blocks p.policy)) [
    | inl yes_block ↦ yes_block
    | inr no_block ↦ absurd (ground (arith, risk_rank-le p.policy.risk_level))
  ]

  -- The verdict of no hits is the empty one. That of hits reports one of them, and none of them is more
  -- urgent: a blocking hit comes before every other, and then the higher risk. It blocks exactly if some
  -- hit blocks.
  pub aggregate_lem :
      (hits : List HitEntry)
      → ((hits ≡ []) × (aggregate go hits ≡ no_verdict))
        ⊎ ((p : HitEntry) × Memᴰ p hits
            × Reports p (aggregate go hits)
            × ((aggregate go hits).hit ≡ true)
            × All (λ h. urgency h ≤ urgency p) hits
            × (((aggregate go hits).block ≡ true)
                ↔ ((h : HitEntry) × Memᴰ h hits × (blocks h.policy ≡ true))))
  unfolding aggregate
  aggregate_lem hits =
      elim (reported hits (sort_stable go hits) (λ x. sort_stable-mem x hits)
        (sort_stable-IsLed hits)) [
          | inl none_hit ↦ inl none_hit
          | inr (p, m, r, e, f, top) ↦ inr (
            p,
            m,
            r,
            e,
            mem-All (λ h. urgency h ≤ urgency p) hits top,
            (λ b. (p, m, sym f ∙ b), λ (h, k, b). f ∙ blocks_above h p b (top h k)),
          )
        ]

  pub aggregate-block :
      (hits : List HitEntry) (h : HitEntry)
      → Memᴰ h hits
      → blocks h.policy ≡ true
      → (aggregate go hits).block ≡ true
  aggregate-block hits h m b = elim (aggregate_lem hits) [
    | inl (e, _) ↦ absurd (not-nil (subst (Memᴰ h) e m))
    | inr (p, _, _, _, _, f) ↦ f.1 (h, m, b)
  ]
