-- ===== src/Quota.antt =====
-- `quotaTracker` of internal/gateway/quota.go: the tokens of a group in the calendar month. A month is
-- the number that stands for its start; the rows that the database answers are a parameter. A map is
-- a function, `none` at a missing key. The sums of token
-- counts that the database answers are not negative, so the counters are natural numbers.
pub mod Monthly
mod Tests
use yzapi.Base.{
  ℕ, ◌+◌, ltb, Bool, false, not, Option, none, some, List, [], ◌∷◌, ◌==◌, if◌then◌else◌, update,
}
use yzapi.Base.Int.{ℤ, pos, pos_part, positive, leb_ℤ}

abbrev pub Used : Type 0
Used = ℕ → Option ℕ

-- `quotaTracker`
pub record Quota : Type 0 where
  pub used : Used
  pub month : ℕ

-- `used[id]` reads 0 at a missing key
abbrev pub at : Option ℕ → ℕ
at none = 0
at (some n) = n

-- `m[r.GroupID] = r.Total`, for every row
unfoldable pub collect : List (ℕ × ℕ) → Used → Used
collect [] m = m
collect ((id, n) ∷ rows) m = collect rows (update m id (some n))

-- for gid, v := range q.used: a counter in memory is not lowered
unfoldable pub keep_higher : Used → Used → Used
keep_higher used m id = elim (used id) [
  | none ↦ m id
  | some v ↦ if ltb (at (m id)) v then some v else m id
]

-- `refresh`, in the month `start`, of the rows or of `none` for a query that failed
unfoldable pub refresh : ℕ → Option (List (ℕ × ℕ)) → Quota → Quota
unfolding collect keep_higher
refresh start none q = q
refresh start (some rows) q =
    let m = collect rows (λ id. none) in
    record { used = if q.month == start then keep_higher q.used m else m; month = start }

-- `add`, in the month `start`
unfoldable pub add : ℕ → ℕ → ℤ → Quota → Quota
add start id tokens q =
    if not (positive tokens)
    then q
    else let used = if q.month == start then q.used else (λ id. none) in
      record { used = update used id (some (at (used id) + pos_part tokens)); month = start }

-- `usage`
abbrev pub usage : ℕ → Quota → ℕ
usage id q = at (q.used id)

-- `exceeded`
unfoldable pub exceeded : ℕ → ℤ → Quota → Bool
exceeded id quota q = if not (positive quota) then false else leb_ℤ quota (pos (usage id q))

-- The calls of one month.
pub data Call : Type 0 where
  refreshes : Option (List (ℕ × ℕ)) → Call
  adds : ℕ → ℤ → Call

unfoldable pub step : ℕ → Quota → Call → Quota
step start q (refreshes rows) = refresh start rows q
step start q (adds id tokens) = add start id tokens q

unfoldable pub run : ℕ → Quota → List Call → Quota
run start q [] = q
run start q (c ∷ cs) = run start (step start q c) cs
