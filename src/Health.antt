-- ===== src/Health.antt =====
-- internal/gateway/health.go: cooldown, half-open probing and persistence of upstream accounts. A
-- time or a duration is a number of nanoseconds, and the zero time is 0; durations do not overflow.
pub mod Truncate
pub mod Circuit
pub mod Backoff
pub mod Recovery
pub mod Persist
mod Tests
use yzapi.Base.{
  ℕ, ◌+◌, ◌-◌, ◌*◌, ◌^◌, ◌%◌, Bool, true, false, not, ◌&&◌, ◌||◌, Option, none, some, List, [], ltb,
  ◌==◌, if◌then◌else◌, update,
}
use Truncate.{Bytes, truncate}

-- `accountHealth`
pub record AccountHealth : Type 0 where
  pub failures : ℕ
  pub cooldown_until : ℕ
  pub last_error : Bytes
  pub unavailable : Bool
  pub seq : ℕ  -- uint64
  pub persisted : ℕ  -- uint64
  pub probing : Bool
  pub probe_since : ℕ

-- `&accountHealth{}`
abbrev pub zero_health : AccountHealth
zero_health = record {
  failures = 0;
  cooldown_until = 0;
  last_error = [];
  unavailable = false;
  seq = 0;
  persisted = 0;
  probing = false;
  probe_since = 0;
}

-- the map of `healthTracker`
abbrev pub Tracker : Type 0
Tracker = ℕ → Option AccountHealth

abbrev pub second : ℕ
second = 1_000_000_000

abbrev pub probe_timeout : ℕ
probe_timeout = 30 * second

abbrev pub max_cooldown : ℕ
max_cooldown = 15 * 60 * second

abbrev pub or_new : Option AccountHealth → AccountHealth
or_new none = zero_health
or_new (some s) = s

-- `available` on one account: may it be used, and what becomes of its record
unfoldable pub admit : ℕ → AccountHealth → AccountHealth × Bool
admit now s =
    if s.unavailable
    then (s, false)
    else if ltb now s.cooldown_until
    then (s, false)
    else if s.failures == 0
    then (s, true)
    else if s.probing && ltb now (s.probe_since + probe_timeout)
    then (s, false)
    else (record s { probing = true; probe_since = now }, true)

-- `available`
unfoldable pub available : ℕ → ℕ → Tracker → Tracker × Bool
unfolding admit
available id now h = elim (h id) [
  | none ↦ (h, true)
  | some s ↦ let (s', answer) = admit now s in (update h id (some s'), answer)
]

-- `isProbing`
unfoldable pub is_probing : ℕ → ℕ → Tracker → Bool
is_probing id now h = elim (h id) [
  | none ↦ false
  | some s ↦ s.probing && ltb now (s.probe_since + probe_timeout)
]

pub data Status : Type 0 where
  is_available is_cooling is_unavailable : Status

-- `state`
unfoldable pub state : ℕ → ℕ → Tracker → Status × ℕ × Bytes
state id now h = elim (h id) [
  | none ↦ (is_available, 0, [])
  | some s ↦
      if s.unavailable
      then (is_unavailable, s.cooldown_until, s.last_error)
      else if ltb now s.cooldown_until
      then (is_cooling, s.cooldown_until, s.last_error)
      else (is_available, 0, s.last_error)
]

-- the column values of one write to the account's row
pub record Columns : Type 0 where
  pub health : Status
  pub cooldown_until : Option ℕ
  pub last_error : Bytes

-- the call of `persist` that a method ends with
pub record Write : Type 0 where
  pub id : ℕ
  pub seq : ℕ
  pub columns : Columns

-- `min(s.failures-1, 4)`, after the count has gone up
abbrev pub doublings : ℕ → ℕ
doublings failures = if ltb (failures - 1) 4 then failures - 1 else 4

-- if d > 15*time.Minute { d = 15 * time.Minute }
unfoldable pub capped : ℕ → ℕ
capped d = if ltb max_cooldown d then max_cooldown else d

-- the cooldown of `fail`
unfoldable pub backoff : ℕ → ℕ → ℕ
backoff base failures = capped (base * 2 ^ doublings failures)

-- one more failure, with a cooldown of `d`
unfoldable pub cool : ℕ → ℕ → Bytes → AccountHealth → AccountHealth
cool now d msg s = record s {
  failures = s.failures + 1;
  probing = false;
  cooldown_until = now + d;
  last_error = msg;
  seq = (s.seq + 1) % 2 ^ 64;
}

cooling : ℕ → Bytes → AccountHealth → Write
cooling id msg s = record {
  id = id;
  seq = s.seq;
  columns = record {
    health = is_cooling;
    cooldown_until = some s.cooldown_until;
    last_error = truncate msg 500;
  };
}

-- `failFor`
unfoldable pub fail_for : ℕ → ℕ → Bytes → ℕ → Tracker → Tracker × Option Write
unfolding cool cooling
fail_for id d msg now h =
    let s = cool now d msg (or_new (h id)) in (update h id (some s), some (cooling id msg s))

-- `fail`
unfoldable pub fail : ℕ → ℕ → Bytes → ℕ → Tracker → Tracker × Option Write
unfolding cool cooling
fail id base msg now h =
    let s = or_new (h id) in
    let s' = cool now (backoff base (s.failures + 1)) msg s in
    (update h id (some s'), some (cooling id msg s'))

-- what `ok` does to a record that is not healthy
unfoldable pub heal : AccountHealth → AccountHealth
heal s = record s {
  failures = 0;
  probing = false;
  unavailable = false;
  cooldown_until = 0;
  seq = (s.seq + 1) % 2 ^ 64;
}

-- `ok`
unfoldable pub ok : ℕ → Tracker → Tracker × Option Write
unfolding heal
ok id h = elim (h id) [
  | none ↦ (h, none)
  | some s ↦ if s.failures == 0 && not s.unavailable then (h, none) else (
    update h id (some (heal s)),
    some (record {
      id = id;
      seq = (heal s).seq;
      columns = record { health = is_available; cooldown_until = none; last_error = [] };
    }),
  )
]

-- `reset`
unfoldable pub reset : ℕ → Tracker → Tracker
reset id h = update h id none
