-- ===== src/Upstream/Order.antt =====
-- `orderUpstreams` of internal/gateway/handler.go. The random numbers are a parameter: `int_n k n`
-- is the answer of the k-th call of `rand.IntN(n)`.
pub mod Ordered
use yzapi.Base.{
  ℕ, zero, suc, ◌+◌, ◌-◌, Bool, Option, none, some, List, [], ◌∷◌, ◌++◌, ltb, if◌then◌else◌, length,
}
use yzapi.Base.Int.{eq_ℤ, pos_part}
use yzapi.Upstream.{Upstream}

-- `max(u.Weight, 1)`
abbrev pub share : Upstream → ℕ
share u = if ltb 1 (pos_part u.weight) then pos_part u.weight else 1

-- the sum of the shares of a tier
unfoldable pub total : List Upstream → ℕ
total [] = 0
total (u ∷ tier) = share u + total tier

-- for k, u := range tier: the first account whose share takes `r` below zero, and the others
unfoldable pub draw : ℕ → List Upstream → Option (Upstream × List Upstream)
draw r [] = none
draw r (u ∷ tier) =
    if ltb r (share u)
    then some (u, tier)
    else elim (draw (r - share u) tier) [ none ↦ none | some (v, rest) ↦ some (v, u ∷ rest) ]

-- for len(tier) > 0, on fuel; a round that draws nothing is repeated with the next number
unfoldable pub shuffle : (ℕ → ℕ → ℕ) → ℕ → ℕ → List Upstream → List Upstream
unfolding draw total
shuffle int_n zero k tier = []
shuffle int_n (suc fuel) k [] = []
shuffle int_n (suc fuel) k (u ∷ tier) = elim (draw (int_n k (total (u ∷ tier))) (u ∷ tier)) [
  | none ↦ shuffle int_n fuel (suc k) (u ∷ tier)
  | some (v, rest) ↦ v ∷ shuffle int_n fuel (suc k) rest
]

-- the accounts in front that share a priority with `u`, and the rest
unfoldable pub tier_of : Upstream → List Upstream → List Upstream × List Upstream
tier_of u [] = ([], [])
tier_of u (v ∷ ups) =
    if eq_ℤ v.priority u.priority then (v ∷ (tier_of u ups).0, (tier_of u ups).1) else ([], v ∷ ups)

-- for i < len(ups), on fuel
unfoldable pub tiers : (ℕ → ℕ → ℕ) → ℕ → ℕ → List Upstream → List Upstream
unfolding tier_of shuffle
tiers int_n zero k ups = []
tiers int_n (suc fuel) k [] = []
tiers int_n (suc fuel) k (u ∷ ups) =
    let (same, rest) = tier_of u ups in
    shuffle int_n (length (u ∷ same)) k (u ∷ same) ++ tiers int_n fuel (k + length (u ∷ same)) rest

-- `orderUpstreams`
unfoldable pub order_upstreams : (ℕ → ℕ → ℕ) → List Upstream → List Upstream
unfolding tiers
order_upstreams int_n ups = if ltb (length ups) 2 then ups else tiers int_n (length ups) 0 ups
