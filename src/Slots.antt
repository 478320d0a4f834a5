-- ===== src/Slots.antt =====
-- `Gateway.acquire` of internal/gateway/handler.go: the slots of the gateway, the user group and the
-- key that a request holds. The wait at the gate is that of `Limiter.Gate`; it is a parameter here,
-- and the counts are those that the caller finds when it comes back.
pub mod Held
mod Tests
use yzapi.Base.{ℕ, Option, none, some, Bool, true, false, not, ◌&&◌, ◌||◌, if◌then◌else◌}
use yzapi.Base.Int.{ℤ, pos, positive, ltb_ℤ}
use yzapi.Errors.{GatewayError, err_group_busy, err_key_busy}
use yzapi.Limiter.Counter.{CounterMap, get, store, free, try_acquire}
use yzapi.Limiter.Gate.{Gate}
use yzapi.Limiter.Gate as Gates

-- the fields of `Gateway` that `acquire` changes
pub record Shared : Type 0 where
  pub gate : Gate
  pub groups : CounterMap
  pub apikeys : CounterMap

-- what `acquire` reads of the request
pub record Caller : Type 0 where
  pub group : ℕ
  pub key : ℕ
  pub max_concurrency : ℤ
  pub key_max_concurrency : ℤ

-- `keyLimit`
abbrev pub key_limit : Caller → ℤ
key_limit c =
    if positive c.max_concurrency
      && (not (positive c.key_max_concurrency) || ltb_ℤ c.max_concurrency c.key_max_concurrency)
    then c.max_concurrency
    else c.key_max_concurrency

-- The answer of `acquire`: an error, or the function that it returns may be called.
pub data Answer : Type 0 where
  holds : Answer
  fails : GatewayError → Answer

-- after the group has a slot
unfoldable pub take_key : Caller → Shared → Shared × Answer
take_key c s =
    let (m, ctr) = get s.apikeys c.key in
    let (ctr', got) = try_acquire (key_limit c) ctr in
    let out = record s { apikeys = store m c.key ctr' } in
    if got then (out, holds) else (
      record out { groups = free s.groups c.group; gate = Gates.release s.gate },
      fails err_key_busy,
    )

-- after the gate has let the caller in
unfoldable pub take_group : Caller → Shared → Shared × Answer
unfolding take_key
take_group c s =
    let (m, ctr) = get s.groups c.group in
    let (ctr', got) = try_acquire c.max_concurrency ctr in
    let out = record s { groups = store m c.group ctr' } in
    if got
    then take_key c out
    else (record out { gate = Gates.release s.gate }, fails err_group_busy)

-- `acquire`, of the error that the gate gave, or of `none` and the state in which it let the caller in
unfoldable pub acquire : Caller → Option GatewayError → Shared → Shared × Answer
unfolding take_group
acquire c (some e) s = (s, fails e)
acquire c none s = take_group c s

-- the function that `acquire` returns
unfoldable pub release_all : Caller → Shared → Shared
release_all c s = record {
  apikeys = free s.apikeys c.key;
  groups = free s.groups c.group;
  gate = Gates.release s.gate;
}
