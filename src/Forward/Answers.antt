-- ===== src/Forward/Answers.antt =====
-- What the endings of `forward` of internal/gateway/handler.go mean.
use yzapi.Forward.Tries.{forward_tries}
use yzapi.Base.{
  length, ◌↔◌, ◌≤◌, ◌≡◌, ◌⊎◌, sym, subst, inl, inr, true, false, ◌&&◌, leb, Option, none, some,
  List, String, Bool, Bool-cases, arith,
}
use yzapi.Health.{Tracker}
use yzapi.Health.Truncate.{Bytes}
use yzapi.Limiter.Counter.{CounterMap, get, try_acquire}
use yzapi.Upstream.{Proto, Upstream, map_model, pick_proto, same_proto}
use yzapi.Upstream.Retry.{retryable}
use yzapi.Forward.{
  max_tries, Settings, Request, Response, Offer, Attempt, Reply, broke, replied, Run, Ending,
  relays, relays_error, rejects, client_gone, no_upstream, all_failed,
}
use yzapi.Forward.Branches.{declares, exchange, network_failed, refused, fresh}
use yzapi.Forward.Loop.{served, concluded, built, attempt, seize, visit, Chance, gave_up, forward}
use yzapi.Forward.Keeps.{visit_cases, forward_keeps}

-- An account that may serve the request, over this protocol.
abbrev pub Chosen : Settings → Request → Upstream → Proto → Type 0
Chosen s r up proto = (declares r up ≡ true) × (pick_proto up r.proto s.conversion ≡ some proto)

-- An error response that is passed on: no other account would do better.
abbrev pub Final : Response → Type 0
Final resp = (300 ≤ resp.status) × (retryable resp.status ≡ false)

-- What an ending promises of the account that answered.
abbrev pub Promise : Settings → Request → Ending → Type 0
Promise s r (relays up proto model drop) = Chosen s r up proto
Promise s r (relays_error up proto model resp) =
    Chosen s r up proto × Final resp × (same_proto proto r.proto ≡ true) × (resp.valid_json ≡ true)
Promise s r (rejects up proto model resp) = Chosen s r up proto × Final resp
Promise s r client_gone = Unit
Promise s r no_upstream = Unit
Promise s r (all_failed status after msg) =
    ((status ≡ 400) × (after ≡ none)) ⊎ (status ≡ 429) ⊎ ((status ≡ 502) × (after ≡ none))

abbrev Honest : Settings → Request → Run × Option Ending → Type 0
Honest s r (run, none) = Unit
Honest s r (run, some ending) = Promise s r ending

module _ (s : Settings) (r : Request) (o : Offer) (up : Upstream) (rec : Attempt) (run : Run) where
  refused-Honest :
      (resp : Response)
      → Chosen s r up rec.protocol
      → 300 ≤ resp.status
      → Honest s r (refused s r o up rec resp run)
  unfolding refused
  refused-Honest resp chosen high = elim (Bool-cases (retryable resp.status)) [
    | inl e ↦ rw e tt
    | inr e ↦ rw e (elim (Bool-cases (same_proto rec.protocol r.proto && resp.valid_json)) [
      | inl raw ↦ rw raw (chosen, (high, e), (ground arith), (ground arith))
      | inr raw ↦ rw raw (chosen, (high, e))
    ])
  ]

  network_failed-Honest :
      (message : Bytes) (sent unsent : Bool)
      → Honest s r (network_failed s o up rec message sent unsent run)
  unfolding network_failed
  network_failed-Honest message sent unsent = elim (Bool-cases o.left) [
    | inl e ↦ rw e tt
    | inr e ↦ rw e tt
  ]

  concluded-Honest :
      (answer : Reply × Bool)
      → Chosen s r up rec.protocol
      → Honest s r (concluded s r o up rec answer run)
  unfolding concluded served
  concluded-Honest (broke message sent unsent, drop) chosen =
      network_failed-Honest message sent unsent
  concluded-Honest (replied resp, drop) chosen = elim (Bool-cases (leb 300 resp.status)) [
    | inl e ↦ rw e (refused-Honest resp chosen (ground arith))
    | inr e ↦ rw e chosen
  ]

  built-Honest :
      (refusal : Option Bytes)
      → Chosen s r up rec.protocol
      → Honest s r (built s r o up rec refusal run)
  unfolding built
  built-Honest none chosen = concluded-Honest (exchange o) chosen
  built-Honest (some err) chosen = tt

module _ (s : Settings) (r : Request) (o : Offer) (cand : String) (up : Upstream) where
  seize-Honest :
      (proto : Proto) (run : Run) → Chosen s r up proto → Honest s r (seize s r o cand up proto run)
  unfolding seize attempt
  seize-Honest proto run chosen =
      elim (Bool-cases (try_acquire up.max_concurrency (get run.accounts up.id).1).1) [
        | inl e ↦
            rw e (built-Honest s r o up (fresh up proto (map_model up cand)) _ o.refusal chosen)
        | inr e ↦ rw e tt
      ]

  visit-Honest : (run : Run) → Honest s r (run, none) → Honest s r (visit s r o cand up run)
  visit-Honest run h =
      visit_cases s r o cand up run (Honest s r) tt tt
        (λ proto room d p. seize-Honest proto _ (d, p))

gave_up-Promise : (s : Settings) (r : Request) (run : Run) → Promise s r (gave_up run)
unfolding gave_up
gave_up-Promise s r run = ground arith

-- An answer or an error is passed on from an account that declares the request's path, over the
-- protocol that `pick_proto` chose for it; an error that is passed on is one that is not retried,
-- and it goes out as it came only in the client's own protocol and as valid JSON. When all tries
-- have failed the status is 400, 429 or 502, and a Retry-After goes with 429 alone.
forward_answers :
    (s : Settings) (r : Request) (w : Chance) (cands : List String) (h : Tracker) (m : CounterMap)
    → Promise s r (forward s r w cands h m).1
forward_answers s r w cands h m =
    elim (forward_keeps s r (Honest s r) (λ o cand up run. visit-Honest s r o cand up run) w cands h
      m tt) [
        | inl (honest, e) ↦
            subst (Promise s r) (sym e) (gave_up-Promise s r (forward s r w cands h m).0)
        | inr honest ↦ honest
      ]

-- `forward` tries at most as many accounts as the settings allow, and it answers that no account is
-- available exactly when it has tried none. An answer or an error is passed on from an account that
-- declares the request's path, over the protocol that `pick_proto` chose for it; an error that is
-- passed on is one that is not retried, and it goes out as it came only in the client's own protocol
-- and as valid JSON. When all tries have failed the status is 400, 429 or 502, and a Retry-After goes
-- with 429 alone.
pub forward_lem :
    (s : Settings) (r : Request) (w : Chance) (cands : List String) (h : Tracker) (m : CounterMap)
    → (length (forward s r w cands h m).0.attempts ≤ max_tries s)
      × (((forward s r w cands h m).1 ≡ no_upstream)
          ↔ (length (forward s r w cands h m).0.attempts ≡ 0))
      × Promise s r (forward s r w cands h m).1
forward_lem s r w cands h m =
    let (few, exact) = forward_tries s r w cands h m in
    (few, exact, forward_answers s r w cands h m)
