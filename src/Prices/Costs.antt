-- ===== src/Prices/Costs.antt =====
-- `Cost` of internal/pricing/pricing.go: the parts of a prompt and their price.
use Prim.Native.String.{String}
use yzapi.Base.{◌≡◌, List}
use yzapi.Base.Int.{ℤ, pos, ◌+ℤ◌, ◌≤ℤ◌}

-- the parts of a prompt: none negative, together the prompt, and no more than was reported
abbrev pub Parts : ℤ → ℤ → ℤ → ℤ × ℤ × ℤ → Type 0
Parts prompt cached cache_write s =
    (s.0 +ℤ s.1 +ℤ s.2 ≡ prompt)
    × (pos 0 ≤ℤ s.0)
    × (pos 0 ≤ℤ s.1)
    × (pos 0 ≤ℤ s.2)
    × (s.1 ≤ℤ cached)
    × (s.2 ≤ℤ cache_write)
