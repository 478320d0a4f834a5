-- ===== src/Pipeline/Handle.antt =====
-- `handleTextWith`, `handleSimple` and `HandleCustom` of internal/gateway/handler.go. Answers are values;
-- the wait at the gate is at its end: there is room, or the time is up.
use yzapi.Pipeline.Finish.{Outcome, panicked, finish, fail, send}
use yzapi.Base.{String, true, not, Option, none, some, List, Result, ok, err, if◌then◌else◌}
use yzapi.Errors.{GatewayError, err_queue_timeout, err_endpoint_not_found}
use yzapi.KeyCache.{Principal}
use yzapi.Limiter.Gate.{Gate, Place, admitted, refused, in_queue}
use yzapi.Limiter.Gate as Gates
use yzapi.Pipeline.{Texts, Server, Incoming, Request, new_request}
use yzapi.Pipeline.Auth.{authenticate, custom_endpoint_path, is_reserved_endpoint}
use yzapi.Pipeline.Prepare.{prepare}
use yzapi.Pipeline.Route.{candidates, check}
use yzapi.Slots.{Caller, Answer, holds, fails, acquire, release_all}
use yzapi.Snapshot.{Group}

-- the wait at the gate, which is over
abbrev last_round : Gate × Place → Gate × Option GatewayError
last_round (gate, admitted) = (gate, none)
last_round (gate, refused e) = (gate, some e)
last_round (gate, in_queue) = (gate, some err_queue_timeout)

unfoldable pub wait : Gate × Place → Gate × Option GatewayError
wait (gate, admitted) = (gate, none)
wait (gate, refused e) = (gate, some e)
wait (gate, in_queue) = last_round (Gates.poll true gate)

-- what `acquire` reads of the request
abbrev pub caller : Option Group → Option Principal → Option Caller
caller none p = none
caller (some g) none = none
caller (some g) (some p) = some (record {
  group = g.id;
  key = p.key_id;
  max_concurrency = g.max_concurrency;
  key_max_concurrency = g.key_max_concurrency;
})

-- the slots that a request takes
unfoldable pub take_slots : Caller → Server → Server × Answer
unfolding wait
take_slots c s =
    let (gate, e) = wait (Gates.enter s.shared.gate) in
    let (shared, answer) = acquire c e (record s.shared { gate = gate }) in
    (record s { shared = shared }, answer)

-- the deferred call of what `acquire` returned
unfoldable pub let_go : Caller → Server × Outcome → Server × Outcome
let_go c (s, out) = (record s { shared = release_all c s.shared }, out)

module _ (t : Texts) (i : Incoming) where
  -- the work that is done with the slots
  unfoldable pub with_answer :
      (Server → Server × Outcome) → Caller → Request → Server × Answer → Server × Outcome
  unfolding let_go finish
  with_answer work c req (s, fails e) = fail t i e req s
  with_answer work c req (s, holds) = let_go c (work s)

  unfoldable pub with_slots :
      (Server → Server × Outcome) → Option Caller → Request → Server → Server × Outcome
  unfolding with_answer take_slots
  with_slots work none req s = (s, panicked)
  with_slots work (some c) req s = with_answer work c req (take_slots c s)

  -- the text pipeline, once the slots are held
  unfoldable pub send_to : Request → Result GatewayError (List String) → Server → Server × Outcome
  unfolding send finish
  send_to req (err e) s = fail t i e req s
  send_to req (ok cands) s = send t i req cands s

  unfoldable pub checked : Request → Option GatewayError → Server → Server × Outcome
  unfolding send_to finish
  checked req (some e) s = fail t i e req s
  checked req none s = send_to req (candidates i req.model) s

  -- `handleTextWith`
  unfoldable pub text_from : Server × Request × Option GatewayError → Server × Outcome
  unfolding with_slots checked finish
  text_from (s, req, some e) = fail t i e req s
  text_from (s, req, none) =
      with_slots (checked req (check i.block_on_failure i.verdict)) (caller req.group req.principal)
        req s

  unfoldable pub handle_text : Server → Server × Outcome
  unfolding text_from
  handle_text s = text_from (prepare t i s)

  -- `runSimple`
  unfoldable pub simple_to : Request → Result GatewayError (List String) → Server → Server × Outcome
  unfolding with_slots send finish
  simple_to req (err e) s = fail t i e req s
  simple_to req (ok cands) s =
      with_slots (send t i req cands) (caller req.group req.principal) req s

  unfoldable pub run_simple : Request → Server → Server × Outcome
  unfolding simple_to
  run_simple req s = simple_to req (candidates i req.model) s

  -- `handleSimple`
  unfoldable pub simple_from : Server × Request × Option GatewayError → Server × Outcome
  unfolding run_simple finish
  simple_from (s, req, some e) = fail t i e req s
  simple_from (s, req, none) = run_simple req s

  unfoldable pub handle_simple : Server → Server × Outcome
  unfolding simple_from
  handle_simple s = simple_from (prepare t i s)

  -- `prepareCustom`, of the answer of `authenticate`
  unfoldable pub prepare_custom :
      String → Result GatewayError Principal → Server → Server × Request × Option GatewayError
  prepare_custom path (err e) s = (s, new_request, some e)
  prepare_custom path (ok p) s =
      if not (i.snap.endpoints path)
      then (s, new_request, some err_endpoint_not_found)
      else prepare t i s

  -- a custom endpoint that is not reserved
  unfoldable pub handle_endpoint : String → Server → Server × Outcome
  unfolding simple_from prepare_custom
  handle_endpoint path s = simple_from (prepare_custom path (authenticate t i.find_key i.headers) s)

-- `HandleCustom`, of the path of the request
unfoldable pub handle_path : Texts → Incoming → Option String → Server → Server × Outcome
unfolding handle_endpoint finish
handle_path t i none s = fail t i err_endpoint_not_found new_request s
handle_path t i (some path) s =
    if is_reserved_endpoint path
    then fail t i err_endpoint_not_found new_request s
    else handle_endpoint t (record i { endpoint = some path }) path s

unfoldable pub handle_custom : Texts → Incoming → String → Server → Server × Outcome
unfolding handle_path
handle_custom t i path s = handle_path t i (custom_endpoint_path path) s
