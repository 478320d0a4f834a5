-- ===== src/Forward/Loop.antt =====
-- The loops of `forward` of internal/gateway/handler.go. The `break` at the limit of tries leaves the
-- inner loop; as the limit stays reached, the outer loop then passes over every account.
use yzapi.Base.{
  ℕ, suc, ◌/◌, String, Bool, not, Option, none, some, List, [], ◌∷◌, ◌++◌, leb, ltb, ◌==◌,
  if◌then◌else◌,
}
use yzapi.Limiter.Counter.{CounterMap, get, store, try_acquire}
use yzapi.Health.{Tracker, available, ok}
use yzapi.Health.Truncate.{Bytes, truncate}
use yzapi.Upstream.{Proto, Upstream, map_model, pick_proto}
use yzapi.Upstream.Order.{order_upstreams}
use yzapi.Upstream.Retry.{unknown}
use yzapi.Forward.{
  Settings, max_tries, Request, Response, Reply, broke, replied, Offer, Attempt, Run, Ending,
  relays, no_upstream, all_failed,
}
use yzapi.Forward.Branches.{
  conversion_error, attempts_failed, declares, exchange, freed, tried, noted, fresh, network_failed,
  refused,
}

-- the success path; the slot is released after the answer is relayed
unfoldable pub served : Offer → Upstream → Attempt → Response → Bool → Run → Run × Option Ending
served o up rec resp drop run = (
  noted (ok up.id run.tracker) (record run {
    accounts = freed up run.accounts;
    attempts = tried run (record rec { status = resp.status; usage = unknown });
  }),
  some (relays up rec.protocol rec.model drop),
)

-- what follows `doUpstream`
unfoldable pub concluded :
    Settings → Request → Offer → Upstream → Attempt → Reply × Bool → Run → Run × Option Ending
concluded s r o up rec (broke message sent unsent, drop) run =
    network_failed s o up rec message sent unsent run
concluded s r o up rec (replied resp, drop) run =
    if leb 300 resp.status then refused s r o up rec resp run else served o up rec resp drop run

-- what follows `buildBody`, of its error
unfoldable pub built :
    Settings → Request → Offer → Upstream → Attempt → Option Bytes → Run → Run × Option Ending
built s r o up rec none run = concluded s r o up rec (exchange o) run
built s r o up rec (some err) run = (
  record run {
    accounts = freed up run.accounts;
    attempts = tried run (record rec { error = conversion_error ++ err });
    last_msg = conversion_error ++ err;
    last_status = 400;
  },
  none,
)

-- a try, once it has the account's slot and is counted
unfoldable pub attempt : Settings → Request → Offer → Upstream → Attempt → Run → Run × Option Ending
attempt s r o up rec run = built s r o up rec o.refusal run

-- taking the account's slot
unfoldable pub seize :
    Settings → Request → Offer → String → Upstream → Proto → Run → Run × Option Ending
seize s r o cand up proto run =
    let (m, c) = get run.accounts up.id in
    let (c', got) = try_acquire up.max_concurrency c in
    let out = record run { accounts = store m up.id c' } in
    if got
    then attempt s r o up (fresh up proto (map_model up cand))
        (record out { tries = suc run.tries })
    else (out, none)

-- the body of the inner loop
unfoldable pub visit : Settings → Request → Offer → String → Upstream → Run → Run × Option Ending
visit s r o cand up run =
    let (h, usable) = available up.id o.asked run.tracker in
    let out = record run { tracker = h } in
    if leb (max_tries s) run.tries
    then (run, none)
    else if not usable
    then (out, none)
    else if not (declares r up)
    then (out, none)
    else elim (pick_proto up r.proto s.conversion) [
      | none ↦ (out, none)
      | some proto ↦ seize s r o cand up proto out
    ]

-- the inner loop, from place `k` on
unfoldable pub inner :
    Settings → Request → (ℕ → Offer) → String → ℕ → List Upstream → Run → Run × Option Ending
unfolding visit
inner s r offers cand k [] run = (run, none)
inner s r offers cand k (up ∷ ups) run =
    let (out, ending) = visit s r (offers k) cand up run in
    elim ending [ none ↦ inner s r offers cand (suc k) ups out | some e ↦ (out, some e) ]

-- the accounts of a candidate
abbrev pub accounts_for : Request → String → List Upstream
accounts_for r cand = elim (r.upstreams_for cand) [ [] ↦ r.passthrough | up ∷ ups ↦ up ∷ ups ]

-- the random numbers and the offers of candidate `n`
pub record Chance : Type 0 where
  pub int_n : ℕ → ℕ → ℕ → ℕ
  pub offers : ℕ → ℕ → Offer

-- the outer loop, from candidate number `n` on
unfoldable pub outer : Settings → Request → Chance → ℕ → List String → Run → Run × Option Ending
unfolding inner
outer s r w n [] run = (run, none)
outer s r w n (cand ∷ cands) run =
    let (out, ending) =
      inner s r (w.offers n) cand 0 (order_upstreams (w.int_n n) (accounts_for r cand)) run in
    elim ending [ none ↦ outer s r w (suc n) cands out | some e ↦ (out, some e) ]

-- after the loops
unfoldable pub gave_up : Run → Ending
gave_up run =
    if run.last_status == 0
    then no_upstream
    else if run.last_status == 429
    then all_failed 429
        (if ltb 0 run.last_retry_after then some (run.last_retry_after / 1_000_000_000) else none)
        (attempts_failed ++ truncate run.last_msg 300)
    else if run.last_status == 400
    then all_failed 400 none (attempts_failed ++ truncate run.last_msg 300)
    else all_failed 502 none (attempts_failed ++ truncate run.last_msg 300)

-- the variables at the start, over the shared state
abbrev pub begin : Tracker → CounterMap → Run
begin h m = record {
  tracker = h;
  accounts = m;
  writes = [];
  tries = 0;
  attempts = [];
  last_msg = [];
  last_status = 0;
  last_retry_after = 0;
}

-- `forward`
unfoldable pub forward :
    Settings → Request → Chance → List String → Tracker → CounterMap → Run × Ending
unfolding outer
forward s r w cands h m =
    let (out, ending) = outer s r w 0 cands (begin h m) in
    elim ending [ none ↦ (out, gave_up out) | some e ↦ (out, e) ]
