-- ===== src/Limiter/Gate.antt =====
-- `gate` of internal/gateway/limiter.go: the global concurrency limit with a bounded wait queue.
-- A method is cut where it gives up the mutex: `enter` and `poll` are the two parts of `acquire`.
pub mod Schedule
pub mod Wakeups
pub mod Bounds
use yzapi.Base.{Bool, ℕ, not, ◌||◌, ◌&&◌, if◌then◌else◌}
use yzapi.Base.Int.{ℤ, pos, positive, ltb_ℤ, leb_ℤ, ◌+ℤ◌, ◌-ℤ◌}
use yzapi.Errors.{GatewayError, err_gateway_busy, err_queue_timeout}

-- `gate`; `streams` is a statistic that no method of the gate touches
pub record Gate : Type 0 where
  pub inflight : ℤ
  pub waiting : ℤ
  pub limit : ℤ
  pub queue : ℤ

-- `newGate`
abbrev pub new_gate : ℤ → ℤ → Gate
new_gate limit queue = record { inflight = pos 0; waiting = pos 0; limit = limit; queue = queue }

-- Where a caller of `acquire` stands.
pub data Place : Type 0 where
  admitted : Place
  refused : GatewayError → Place
  in_queue : Place

-- `g.limit <= 0 || g.inflight < g.limit`
abbrev pub has_room : Gate → Bool
has_room g = not (positive g.limit) || ltb_ℤ g.inflight g.limit

-- `acquire` up to its loop
unfoldable pub enter : Gate → Gate × Place
unfolding ◌+ℤ◌
enter g =
    if has_room g
    then (record g { inflight = g.inflight +ℤ pos 1 }, admitted)
    else if positive g.queue && leb_ℤ g.queue g.waiting
    then (g, refused err_gateway_busy)
    else (record g { waiting = g.waiting +ℤ pos 1 }, in_queue)

-- One round of the loop of `acquire`; `in_queue` is the call of `Wait`. `over` says that the
-- context has an error or that the deadline has passed.
unfoldable pub poll : Bool → Gate → Gate × Place
unfolding ◌+ℤ◌ ◌-ℤ◌
poll over g =
    if has_room g
    then (record g { waiting = g.waiting -ℤ pos 1; inflight = g.inflight +ℤ pos 1 }, admitted)
    else if over
    then (record g { waiting = g.waiting -ℤ pos 1 }, refused err_queue_timeout)
    else (g, in_queue)

-- `release`, up to its `Signal`
unfoldable pub release : Gate → Gate
unfolding ◌-ℤ◌
release g = record g { inflight = g.inflight -ℤ pos 1 }

-- `configure`, up to its `Broadcast`
unfoldable pub configure : Gate → ℤ → ℤ → Gate
configure g limit queue = record g { limit = limit; queue = queue }
