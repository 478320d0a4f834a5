-- ===== src/Slots/Tests.antt =====
-- `Gateway.acquire` of internal/gateway/handler.go for a group with a limit of 2 and a key without one.
use yzapi.Base.{none}
use yzapi.Base.Int.{pos}
use yzapi.Limiter.Counter.{new_map}
use yzapi.Limiter.Gate.{new_gate}
use yzapi.Slots.{Shared, Caller, acquire}
use yzapi.Slots.Held.{Settled, acquire_settles}

abbrev caller : Caller
caller = record { group = 1; key = 7; max_concurrency = pos 2; key_max_concurrency = pos 0 }

abbrev idle : Shared
idle = record { gate = new_gate (pos 5) (pos 5); groups = new_map; apikeys = new_map }

acquire_settles_example : Settled caller idle (acquire caller none idle)
acquire_settles_example = acquire_settles caller idle
