-- ===== src/Forward/Branches.antt =====
-- The branches of a try in `forward` of internal/gateway/handler.go.
use yzapi.Base.{
  ℕ, ◌+◌, String, Bool, true, false, ◌&&◌, ◌||◌, Option, none, some, List, [], ◌∷◌, ◌++◌, ltb, ◌==◌,
  if◌then◌else◌,
}
use yzapi.Limiter.Counter.{CounterMap, free}
use yzapi.Health.{Tracker, Write, fail, fail_for, ok}
use yzapi.Health.Persist.{queued}
use yzapi.Health.Truncate.{Bytes}
use yzapi.Upstream.{Proto, Upstream, same_proto}
use yzapi.Upstream.Retry.{confirmed, unset, retryable, http_failure_usage, network_failure_usage}
use yzapi.Forward.{
  Settings, cooldown, Request, Response, Reply, broke, replied, Offer, Attempt, Run, Ending,
  client_gone, relays_error, rejects,
}

-- "conversion: ", "client disconnected", "credentials rejected: ", "rate limited (Retry-After): "
-- and "All upstream attempts failed: "
abbrev pub conversion_error : Bytes
conversion_error = 99 ∷ 111 ∷ 110 ∷ 118 ∷ 101 ∷ 114 ∷ 115 ∷ 105 ∷ 111 ∷ 110 ∷ 58 ∷ 32 ∷ []

abbrev client_disconnected : Bytes
client_disconnected =
    99 ∷ 108 ∷ 105 ∷ 101 ∷ 110 ∷ 116 ∷ 32 ∷ 100 ∷ 105 ∷ 115 ∷ 99 ∷ 111 ∷ 110 ∷ 110 ∷ 101 ∷ 99 ∷ 116
    ∷ 101 ∷ 100 ∷ []

abbrev credentials_rejected : Bytes
credentials_rejected =
    99 ∷ 114 ∷ 101 ∷ 100 ∷ 101 ∷ 110 ∷ 116 ∷ 105 ∷ 97 ∷ 108 ∷ 115 ∷ 32 ∷ 114 ∷ 101 ∷ 106 ∷ 101 ∷ 99
    ∷ 116 ∷ 101 ∷ 100 ∷ 58 ∷ 32 ∷ []

abbrev rate_limited_until : Bytes
rate_limited_until =
    114 ∷ 97 ∷ 116 ∷ 101 ∷ 32 ∷ 108 ∷ 105 ∷ 109 ∷ 105 ∷ 116 ∷ 101 ∷ 100 ∷ 32 ∷ 40 ∷ 82 ∷ 101 ∷ 116
    ∷ 114 ∷ 121 ∷ 45 ∷ 65 ∷ 102 ∷ 116 ∷ 101 ∷ 114 ∷ 41 ∷ 58 ∷ 32 ∷ []

abbrev pub attempts_failed : Bytes
attempts_failed =
    65 ∷ 108 ∷ 108 ∷ 32 ∷ 117 ∷ 112 ∷ 115 ∷ 116 ∷ 114 ∷ 101 ∷ 97 ∷ 109 ∷ 32 ∷ 97 ∷ 116 ∷ 116 ∷ 101
    ∷ 109 ∷ 112 ∷ 116 ∷ 115 ∷ 32 ∷ 102 ∷ 97 ∷ 105 ∷ 108 ∷ 101 ∷ 100 ∷ 58 ∷ 32 ∷ []

-- `req.endpointPath != "" && !up.Endpoints[req.endpointPath]`, negated
unfoldable pub declares : Request → Upstream → Bool
declares r up = elim r.endpoint [ none ↦ true | some path ↦ up.endpoints path ]

-- the two calls of `doUpstream`, and whether usage chunks are still to be dropped. The message of a
-- response is the one that `readErrorBody` gives when it is read for the last time.
unfoldable pub exchange : Offer → Reply × Bool
exchange o = elim o.first [
  | broke message sent unsent ↦ (o.first, o.drop_usage)
  | replied resp ↦
      if resp.status == 400 && o.drop_usage && o.mentions && o.strips
      then (o.second, false)
      else (o.first, o.drop_usage)
]

-- `ctr.release()`
abbrev pub freed : Upstream → CounterMap → CounterMap
freed up m = free m up.id

-- `req.attempts = append(req.attempts, rec)`
abbrev pub tried : Run → Attempt → List Attempt
tried run rec = run.attempts ++ (rec ∷ [])

-- a call of the health tracker
abbrev pub noted : Tracker × Option Write → Run → Run
noted call run = record run { tracker = call.0; writes = queued call.1 run.writes }

-- `rec` as it is made
abbrev pub fresh : Upstream → Proto → String → Attempt
fresh up proto model = record {
  account = up.id;
  protocol = proto;
  model = model;
  status = 0;
  error = [];
  usage = unset;
  prompt = 0;
  completion = 0;
}

-- the usage of an error response
unfoldable pub error_usage : Proto → Response → Attempt → Attempt
error_usage proto resp rec = elim resp.usage [
  | none ↦ record rec { usage = http_failure_usage resp.status }
  | some (prompt, completion) ↦
      if ltb 0 (prompt + completion) || elim proto [ Proto.custom_json ↦ true | _ ↦ false ]
      then record rec { usage = confirmed; prompt = prompt; completion = completion }
      else record rec { usage = http_failure_usage resp.status }
]

-- the health call after a retryable status
unfoldable pub penalty : Settings → Upstream → Response → ℕ → Tracker → Tracker × Option Write
penalty s up resp now h =
    if resp.status == 404
    then (h, none)
    else if resp.status == 401 || resp.status == 403 || resp.status == 402
    then fail_for up.id 600_000_000_000 (credentials_rejected ++ resp.msg) now h
    else if resp.status == 429 && ltb 0 resp.retry_after
    then fail_for up.id resp.retry_after (rate_limited_until ++ resp.msg) now h
    else fail up.id (cooldown s) resp.msg now h

-- the branch of a transport error
unfoldable pub network_failed :
    Settings → Offer → Upstream → Attempt → Bytes → Bool → Bool → Run → Run × Option Ending
network_failed s o up rec message sent unsent run =
    let rec' = record rec { usage = network_failure_usage unsent sent } in
    let out = record run { accounts = freed up run.accounts } in
    if o.left
    then (
      record out { attempts = tried run (record rec' { error = client_disconnected }) },
      some client_gone,
    )
    else (
      noted (fail up.id (cooldown s) message o.now run.tracker) (record out {
        attempts = tried run (record rec' { error = message });
        last_msg = message;
        last_status = 502;
      }),
      none,
    )

-- the branch of a status of 300 or more
unfoldable pub refused :
    Settings → Request → Offer → Upstream → Attempt → Response → Run → Run × Option Ending
refused s r o up rec resp run =
    let rec' =
      error_usage rec.protocol resp (record rec { status = resp.status; error = resp.msg }) in
    let out = record run { accounts = freed up run.accounts; attempts = tried run rec' } in
    if retryable resp.status
    then (
      noted (penalty s up resp o.now run.tracker) (record out {
        last_msg = resp.msg;
        last_status = resp.status;
        last_retry_after =
            if resp.status == 429 && ltb 0 resp.retry_after
            then resp.retry_after
            else run.last_retry_after;
      }),
      none,
    )
    else (
      noted (ok up.id run.tracker) out,
      some (
          if same_proto rec.protocol r.proto && resp.valid_json
          then relays_error up rec.protocol rec.model resp
          else rejects up rec.protocol rec.model resp),
    )
