-- ===== src/Pipeline.antt =====
-- The data plane of internal/gateway/handler.go from a request to its end: the state that requests
-- share, and one request with what it meets. Other requests do not run meanwhile.
pub mod Auth
pub mod Prepare
pub mod Route
pub mod Finish
pub mod Handle
pub mod Guards
pub mod Balanced
pub mod Refusals
mod Tests
use yzapi.Base.{ℕ, String, Bool, Option, none, List, []}
use yzapi.Base.Int.{ℤ, pos}
use yzapi.Forward.{Attempt, Settings}
use yzapi.Forward.Loop.{Chance}
use yzapi.Health.{Tracker}
use yzapi.KeyCache.{Principal}
use yzapi.Limiter.Budget.{Budget}
use yzapi.Limiter.Counter.{CounterMap}
use yzapi.Quota.{Quota}
use yzapi.RateLimit.{RateLimiter}
use yzapi.Slots.{Shared}
use yzapi.Snapshot.{Snapshot, Group}
use yzapi.Upstream.{Proto, ProtoType}
use yzapi.Upstream.Retry.{UsageStatus}

-- `strings.ToLower`, `strings.TrimSpace`, `strconv.FormatUint` and the names of the types of models
pub record Texts : Type 0 where
  pub lower : String → String
  pub trim : String → String
  pub format : ℕ → String
  pub type_name : ProtoType → String

-- `Result` of a record of the call log; `unsaid` is the empty text of a new record
pub data LogResult : Type 0 where
  success client_error rate_limited blocked upstream_error unsaid : LogResult

-- `model.CallLog`, but for names, times, the text of an error and the cost
pub record CallLog : Type 0 where
  pub status : ℕ
  pub result : LogResult
  pub usage : UsageStatus
  pub prompt_tokens : ℕ
  pub completion_tokens : ℕ
  pub user : Option ℕ
  pub group : Option ℕ

-- what `Gateway` shares between requests. `logged` has the records handed to the call log, `active` and
-- `touched` the users and keys of the calls of `touch`, the last ones first.
pub record Server : Type 0 where
  pub quota : Quota
  pub rates : RateLimiter
  pub budget : Budget
  pub shared : Shared
  pub tracker : Tracker
  pub accounts : CounterMap
  pub logged : List CallLog
  pub active : List ℕ
  pub touched : List ℕ

-- the places that a client may write its key to; empty for none
pub record Headers : Type 0 where
  pub authorization : String
  pub x_api_key : String
  pub api_key : String
  pub x_goog_api_key : String
  pub url_key : String

-- what reading and parsing the body gives: the model that it names, or an error
pub data Body : Type 0 where
  too_large unreadable bad_json : Body
  bad_form : (message : String) → Body
  parsed : (model : String) → Body

-- `Verdict` of the content check, as far as it decides
pub record Verdict : Type 0 where
  pub degraded : Bool
  pub hit : Bool
  pub block : Bool

-- what the relay of an answer leaves behind: the last attempt's usage, the health of an account whose
-- stream broke off, and the status and result that it writes into the record
pub record Relay : Type 0 where
  pub measured : List Attempt → List Attempt
  pub tracked : Tracker → Tracker
  pub answer : ℕ × LogResult

-- one request, and the answers that it gets from outside
pub record Incoming : Type 0 where
  pub headers : Headers
  -- `keyCache.lookup`
  pub find_key : String → Option Principal
  pub snap : Snapshot
  pub proto : Proto
  pub path_model : String
  pub endpoint : Option String
  pub content_length : ℤ
  pub max_body_kb : ℤ
  pub body : Body
  pub month : ℕ
  pub now : ℕ
  -- `none` when no check is set up or enabled
  pub verdict : Option Verdict
  pub block_on_failure : Bool
  -- the answer of smart routing, and the group that it falls back on
  pub route_label : String
  pub route_group : ℕ
  pub simple_group : ℕ
  pub settings : Settings
  pub chance : Chance
  pub relay : Relay

-- the fields of `request` that `finish` reads; `answer` has the status and the result of its record
pub record Request : Type 0 where
  pub principal : Option Principal
  pub group : Option Group
  pub model : String
  pub reserved : ℤ
  pub attempts : List Attempt
  pub answer : ℕ × LogResult

-- `newRequest`
abbrev pub new_request : Request
new_request = record {
  principal = none;
  group = none;
  model = "";
  reserved = pos 0;
  attempts = [];
  answer = (0, unsaid);
}
