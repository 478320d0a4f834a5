-- ===== src/Limiter/Counter.antt =====
-- The in-flight counters of internal/gateway/limiter.go, and the maps of them. A map is a function
-- from ids; a missing id is `none`.
pub mod Taken
use yzapi.Base.{ℕ, Bool, true, false, not, ◌&&◌, Option, none, some, if◌then◌else◌, update}
use yzapi.Base.Int.{ℤ, pos, positive, leb_ℤ, eq_ℤ, ◌+ℤ◌, ◌-ℤ◌}

-- `counter`
pub record Counter : Type 0 where
  pub cur : ℤ

-- `tryAcquire`: its loop ends with a compare-and-swap from the value that the test read, so a
-- successful call is one atomic step.
unfoldable pub try_acquire : ℤ → Counter → Counter × Bool
unfolding ◌+ℤ◌
try_acquire lim c =
    if positive lim && leb_ℤ lim c.cur then (c, false) else (record { cur = c.cur +ℤ pos 1 }, true)

-- `release`
unfoldable pub release : Counter → Counter
unfolding ◌-ℤ◌
release c = record { cur = c.cur -ℤ pos 1 }

-- `counterMap`
abbrev pub CounterMap : Type 0
CounterMap = ℕ → Option Counter

-- `newCounterMap`
abbrev pub new_map : CounterMap
new_map id = none

abbrev zero_counter : Counter
zero_counter = record { cur = pos 0 }

abbrev or_new : Option Counter → Counter
or_new none = zero_counter
or_new (some c) = c

-- `get`: makes a missing counter
unfoldable pub get : CounterMap → ℕ → CounterMap × Counter
get m id = (update m id (some (or_new (m id))), or_new (m id))

-- a write through the pointer that `get` returned
abbrev pub store : CounterMap → ℕ → Counter → CounterMap
store m id c = update m id (some c)

-- an entry of `snapshot`; an id that it lacks counts as 0
abbrev pub current : CounterMap → ℕ → ℤ
current m id = (or_new (m id)).cur

-- `prune`
unfoldable pub prune : (ℕ → Bool) → CounterMap → CounterMap
prune keep m id = elim (m id) [
  | none ↦ none
  | some c ↦ if not (keep id) && eq_ℤ c.cur (pos 0) then none else some c
]

-- `release` through the pointer that `get` returned
abbrev pub free : CounterMap → ℕ → CounterMap
free m id = store (get m id).0 id (release (get m id).1)
