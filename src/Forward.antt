-- ===== src/Forward.antt =====
-- `forward` of internal/gateway/handler.go: a request goes from account to account until one answers.
-- The rest of the world is a parameter: an `Offer` says what one try meets.
pub mod Branches
pub mod Loop
pub mod Keeps
pub mod Slots
pub mod Tries
pub mod Answers
mod Tests
use yzapi.Base.{ℕ, ◌*◌, String, Bool, Option, List, if◌then◌else◌}
use yzapi.Base.Int.{ℤ, pos_part, positive}
use yzapi.Limiter.Counter.{CounterMap}
use yzapi.Health.{Tracker, Write}
use yzapi.Health.Truncate.{Bytes}
use yzapi.Upstream.{Proto, Upstream}
use yzapi.Upstream.Retry.{UsageStatus}

-- `perf` and `conversion`, with the defaults of `forward` not filled in
pub record Settings : Type 0 where
  pub max_retries : ℤ
  pub cooldown_sec : ℤ
  pub conversion : Bool

abbrev pub max_tries : Settings → ℕ
max_tries s = if positive s.max_retries then pos_part s.max_retries else 3

abbrev pub cooldown : Settings → ℕ
cooldown s =
    if positive s.cooldown_sec then pos_part s.cooldown_sec * 1_000_000_000 else 60_000_000_000

-- what `forward` reads of the request; `endpoint` is `none` for no custom endpoint
pub record Request : Type 0 where
  pub proto : Proto
  pub endpoint : Option String
  -- `UpstreamsFor` of the request's snapshot, and `PassthroughFor` of its type
  pub upstreams_for : String → List Upstream
  pub passthrough : List Upstream

-- the response of an account; `usage` is what `usageFromJSON` finds in the body
pub record Response : Type 0 where
  pub status : ℕ
  pub retry_after : ℕ
  pub msg : Bytes
  pub valid_json : Bool
  pub usage : Option (ℕ × ℕ)

-- what `doUpstream` answers; `unsent` says that the error is a dial or a DNS error
pub data Reply : Type 0 where
  broke : (message : Bytes) (sent unsent : Bool) → Reply
  replied : Response → Reply

-- what one try meets: the clock, `buildBody` (the error, or none), the calls of `doUpstream`, and
-- whether the client has gone
pub record Offer : Type 0 where
  pub asked : ℕ
  pub now : ℕ
  pub refusal : Option Bytes
  pub drop_usage : Bool
  pub first : Reply
  pub mentions : Bool
  pub strips : Bool
  pub second : Reply
  pub left : Bool

-- `attemptRecord`, less the names and the latency; a status of 0 is one that was never set
pub record Attempt : Type 0 where
  pub account : ℕ
  pub protocol : Proto
  pub model : String
  pub status : ℕ
  pub error : Bytes
  pub usage : UsageStatus
  pub prompt : ℕ
  pub completion : ℕ

-- the variables of `forward`, with the shared state that it changes; `writes` are the health writes
-- that it starts
pub record Run : Type 0 where
  pub tracker : Tracker
  pub accounts : CounterMap
  pub writes : List Write
  pub tries : ℕ
  pub attempts : List Attempt
  pub last_msg : Bytes
  pub last_status : ℕ
  pub last_retry_after : ℕ

-- How `forward` ends: an account's answer is relayed, an account's error is relayed as it came or in
-- the client's format, the client has gone, no account could be tried, or all tries failed.
pub data Ending : Type 0 where
  relays : Upstream → Proto → String → (drop_usage : Bool) → Ending
  relays_error : Upstream → Proto → String → Response → Ending
  rejects : Upstream → Proto → String → Response → Ending
  client_gone : Ending
  no_upstream : Ending
  -- the status, the seconds of the header Retry-After, and the message
  all_failed : ℕ → Option ℕ → Bytes → Ending
