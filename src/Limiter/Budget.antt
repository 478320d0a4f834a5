-- ===== src/Limiter/Budget.antt =====
-- `budget` of internal/gateway/limiter.go: bytes of request bodies held in memory. As in the gate,
-- `poll` is one round of the loop of `acquire`, under the mutex.
pub mod Conserved
pub mod Bounds
use yzapi.Base.{ℕ, Bool, true, false, not, ◌||◌, ◌&&◌, if◌then◌else◌}
use yzapi.Base.Int.{ℤ, pos, positive, ltb_ℤ, leb_ℤ, eq_ℤ, ◌+ℤ◌, ◌-ℤ◌}

-- `budget`
pub record Budget : Type 0 where
  pub used : ℤ
  pub limit : ℤ

-- `newBudget`
abbrev pub new_budget : ℤ → Budget
new_budget limit = record { used = pos 0; limit = limit }

-- Where a caller of `acquire` stands; `waiting` is the call of `Wait`.
pub data Place : Type 0 where
  taken gave_up waiting : Place

-- The test in the loop of `acquire`: no limit, or room, or nothing held and more asked than fits
abbrev pub fits : Budget → ℤ → Bool
fits b n =
    not (positive b.limit)
    || leb_ℤ (b.used +ℤ n) b.limit
    || (eq_ℤ b.used (pos 0) && ltb_ℤ b.limit n)

-- `acquire` of a positive number of bytes: a round of its loop
unfoldable pub poll : Bool → ℤ → Budget → Budget × Place
unfolding ◌+ℤ◌
poll over n b =
    if fits b n
    then (record b { used = b.used +ℤ n }, taken)
    else if over
    then (b, gave_up)
    else (b, waiting)

-- `acquire`, with its early return
unfoldable pub acquire : Bool → ℤ → Budget → Budget × Place
unfolding poll
acquire over n b = if not (positive n) then (b, taken) else poll over n b

-- `release`, up to its `Broadcast`
unfoldable pub release : ℤ → Budget → Budget
unfolding ◌-ℤ◌
release n b =
    if not (positive n)
    then b
    else let left = b.used -ℤ n in
      if ltb_ℤ left (pos 0) then record b { used = pos 0 } else record b { used = left }

-- `configure`, up to its `Broadcast`
unfoldable pub configure : ℤ → Budget → Budget
configure limit b = record b { limit = limit }
