-- ===== src/Pipeline/Finish.antt =====
-- `finish` and `fail`, and what `forward` comes to, in internal/gateway/handler.go.
use text.Mathlib.Text as Text
use yzapi.Base.{ℕ, ◌+◌, ◌==◌, leb, ◌∷◌, String, Option, none, some, List, if◌then◌else◌}
use yzapi.Base.Int.{ℤ, pos, positive}
use yzapi.Errors.{GatewayError, err_no_upstream}
use yzapi.Forward as Forwarding
use yzapi.Forward.{
  Run, Attempt, Ending, relays, relays_error, rejects, client_gone, no_upstream, all_failed,
}
use yzapi.Forward.Loop.{forward}
use yzapi.Health.{Tracker}
use yzapi.KeyCache.{Principal}
use yzapi.Limiter.Budget.{Budget}
use yzapi.Limiter.Budget as Budgets
use yzapi.Pipeline.{
  LogResult, CallLog, client_error, rate_limited, blocked, upstream_error, Texts, Server, Incoming,
  Request,
}
use yzapi.Pipeline.Prepare.{group_key, key_key}
use yzapi.Quota.{Quota}
use yzapi.Quota as Quotas
use yzapi.RateLimit.{RateLimiter}
use yzapi.RateLimit as Rates
use yzapi.Snapshot.{Group}
use yzapi.Upstream.{protocol_type}
use yzapi.Usage.{usage_from_attempts}

-- What comes of a request; `panicked` is a nil group or principal that is read.
pub data Outcome : Type 0 where
  failed : GatewayError → Outcome
  forwarded : Ending → Outcome
  panicked : Outcome

-- the `switch` of `fail`, of a status
unfoldable pub class : ℕ → LogResult
class status =
    if status == 429 then rate_limited else if leb 500 status then upstream_error else client_error

-- that `switch`; `ErrContentBlocked` is the one error with its code
unfoldable pub class_of : GatewayError → LogResult
unfolding class
class_of e = if Text.◌==◌ e.code "content_blocked" then blocked else class e.status

-- the status and the result at the end of `forward`, but for an answer that is relayed
unfoldable pub forward_answer : Ending → Option (ℕ × LogResult)
unfolding class
forward_answer (relays up proto model drop) = none
forward_answer (relays_error up proto model resp) = some (resp.status, client_error)
forward_answer (rejects up proto model resp) = some (resp.status, class resp.status)
forward_answer client_gone = some (499, client_error)
forward_answer no_upstream = some (err_no_upstream.status, class err_no_upstream.status)
forward_answer (all_failed status after msg) = some (status, class status)

abbrev pub or_relay : Option (ℕ × LogResult) → ℕ × LogResult → ℕ × LogResult
or_relay none answer = answer
or_relay (some a) answer = a

abbrev user_of : Option Principal → Option ℕ
user_of none = none
user_of (some p) = some p.user_id

abbrev group_of : Option Group → Option ℕ
group_of none = none
group_of (some g) = some g.id

-- the record of a request
unfoldable pub call_log : Request → CallLog
call_log req =
    let (usage, prompt, completion) = usage_from_attempts req.attempts in
    record {
      status = req.answer.0;
      result = req.answer.1;
      usage = usage;
      prompt_tokens = prompt;
      completion_tokens = completion;
      user = user_of req.principal;
      group = group_of req.group;
    }

-- the memory of the body, given back
unfoldable pub give_back : ℤ → Budget → Budget
give_back reserved b = if positive reserved then Budgets.release reserved b else b

-- `l.TotalTokens`
abbrev pub total_tokens : List Attempt → ℕ
total_tokens attempts = (usage_from_attempts attempts).1 + (usage_from_attempts attempts).2

-- the tokens booked for the quota of a group
abbrev pub book_group : Incoming → Option Group → ℤ → Quota → Quota
book_group i none tokens q = q
book_group i (some g) tokens q = if positive tokens then Quotas.add i.month g.id tokens q else q

-- the steps of a token limit, for a group and for a key
abbrev pub book_rate : Incoming → ℤ → Option String → RateLimiter → RateLimiter
book_rate i tokens none rates = rates
book_rate i tokens (some key) rates =
    if positive tokens then Rates.add_tokens rates key tokens i.now else rates

module _ (t : Texts) (i : Incoming) where
  abbrev pub group_name : Option Group → Option String
  group_name none = none
  group_name (some g) = some (group_key t i g)

  abbrev pub key_name : Option Principal → Option String
  key_name none = none
  key_name (some p) = some (key_key t i p)

  -- `finish`
  unfoldable pub finish : Request → Server → Server
  unfolding give_back call_log
  finish req s =
      let tokens = pos (total_tokens req.attempts) in
      record s {
        budget = give_back req.reserved s.budget;
        quota = book_group i req.group tokens s.quota;
        rates =
            book_rate i tokens (key_name req.principal)
              (book_rate i tokens (group_name req.group) s.rates);
        logged = call_log req ∷ s.logged;
      }

  -- `fail`, but for its answer
  unfoldable pub fail : GatewayError → Request → Server → Server × Outcome
  unfolding finish class_of
  fail e req s = (finish (record req { answer = (e.status, class_of e) }) s, failed e)

  -- the relay of an answer, where there is one
  abbrev pub relayed : Ending → Tracker → Tracker
  relayed (relays up proto model drop) h = i.relay.tracked h
  relayed ending h = h

  abbrev pub measured : Ending → List Attempt → List Attempt
  measured (relays up proto model drop) attempts = i.relay.measured attempts
  measured ending attempts = attempts

  -- the end of `forward`: every branch of it comes to `finish`
  unfoldable pub settle : Request → Run × Ending → Server → Server × Outcome
  unfolding finish forward_answer
  settle req (run, ending) s = (
    finish
        (record req {
          attempts = measured ending run.attempts;
          answer = or_relay (forward_answer ending) i.relay.answer;
        })
        (record s { tracker = relayed ending run.tracker; accounts = run.accounts }),
    forwarded ending,
  )

  -- what `forward` reads of the request
  abbrev pub to_forward : Forwarding.Request
  to_forward = record {
    proto = i.proto;
    endpoint = i.endpoint;
    upstreams_for = i.snap.by_model;
    passthrough = i.snap.passthrough (protocol_type i.proto);
  }

  -- `forward`
  unfoldable pub send : Request → List String → Server → Server × Outcome
  unfolding settle
  send req cands s =
      settle req (forward i.settings to_forward i.chance cands s.tracker s.accounts) s
