-- ===== src/Limiter/Budget/Bounds.antt =====
-- What the budget of internal/gateway/limiter.go lets be held at once, while its limit stays.
use yzapi.Base.{
  ℕ, zero, suc, ◌+◌, ◌≤◌, ◌<◌, ◌≡◌, refl, ◌⊎◌, inl, inr, some, List, [], ◌∷◌, arith, Option-cases,
  if◌then◌else◌,
}
use yzapi.Base.Int.{ℤ, pos, positive}
use yzapi.Base.Pick.{pick}
use yzapi.Limiter.Budget.{new_budget}
use yzapi.Limiter.Budget.Conserved.{
  Ledger, Act, asks, returns, configures, act, run, total, total-pick, Balanced, act-Balanced,
  run-Balanced,
}

-- How many of the reservations hold bytes.
unfoldable pub holding : List ℤ → ℕ
holding [] = 0
holding (n ∷ held) = (if positive n then 1 else 0) + holding held

holding-pick :
    (i : ℕ) (held : List ℤ) (n : ℤ) (left : List ℤ)
    → pick i held ≡ some (n, left)
    → holding left ≤ holding held
unfolding holding pick
holding-pick i [] n left e = cc
holding-pick zero (m ∷ rest) n left e = ground arith
holding-pick (suc i) (m ∷ rest) n left e = elim (Option-cases (pick i rest)) [
  | inl nothing ↦ ground arith
  | inr ((k, others), found) ↦ ground (arith, holding-pick i rest k others found)
]

holding-none : (held : List ℤ) → total held ≡ 0 → holding held ≡ 0
unfolding holding total
holding-none [] e = refl
holding-none (n ∷ held) e = ground (arith, holding-none held)

abbrev IsTraffic : Act → Type 0
IsTraffic (configures limit) = ⊥
IsTraffic a = Unit {0}

abbrev pub IsSteady : List Act → Type 0
IsSteady [] = Unit {0}
IsSteady (a ∷ rest) = IsTraffic a × IsSteady rest

abbrev Within : ℕ → Ledger → Type 0
Within limit s = (s.budget.limit ≡ pos limit) × ((total s.held ≤ limit) ⊎ (holding s.held ≤ 1))

module _ (limit : ℕ) (limited : 0 < limit) where
  act-Within :
      (s : Ledger) (a : Act) → IsTraffic a → Balanced s → Within limit s → Within limit (act s a)
  unfolding act total holding
  act-Within s (asks over n) t b w = ground (arith, holding-none s.held)
  act-Within s (returns i) t b w = elim (Option-cases (pick i s.held)) [
    | inl nothing ↦ rw (nothing, act) w
    | inr ((n, left), found) ↦
        rw (found, act)
          (ground (arith, total-pick i s.held n left found, holding-pick i s.held n left found))
  ]
  act-Within s (configures l) t b w = absurd t

  run-Within :
      (s : Ledger) (acts : List Act)
      → IsSteady acts
      → Balanced s
      → Within limit s
      → Within limit (run s acts)
  unfolding run
  run-Within s [] t b w = w
  run-Within s (a ∷ rest) t b w =
      run-Within (act s a) rest t.1 (act-Balanced s a b) (act-Within s a t.0 b w)

abbrev pub start : ℕ → Ledger
start limit = record { budget = new_budget (pos limit); held = [] }

-- From an empty budget with a positive limit that stays as it is, the bytes held never exceed the
-- limit, unless they are those of a single request.
budget_bound :
    (limit : ℕ) (acts : List Act)
    → 0 < limit
    → IsSteady acts
    → let s = run (start limit) acts in (total s.held ≤ limit) ⊎ (holding s.held ≤ 1)
unfolding total
budget_bound limit acts limited steady =
    (run-Within limit limited (start limit) acts steady refl (refl, inl (omega arith))).1

-- From an empty budget, the budget counts exactly the bytes of the reservations that are held, however
-- requests come and go; and with a positive limit that stays as it is, they never exceed the limit,
-- unless they are those of a single request.
pub budget_bounds :
    (limit : ℕ) (acts : List Act)
    → 0 < limit
    → IsSteady acts
    → let s = run (start limit) acts in Balanced s × ((total s.held ≤ limit) ⊎ (holding s.held ≤ 1))
unfolding total
budget_bounds limit acts limited steady =
    (run-Balanced (start limit) acts refl, budget_bound limit acts limited steady)
