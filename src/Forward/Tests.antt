-- ===== src/Forward/Tests.antt =====
-- `forward` of internal/gateway/handler.go over two accounts, the first of which is rate limited.
use yzapi.Base.{ℕ, zero, suc, ◌≤◌, ◌≡◌, ◌↔◌, true, false, none, [], ◌∷◌, length}
use yzapi.Base.Int.{pos}
use yzapi.Health.{Tracker}
use yzapi.Limiter.Counter.{current, new_map}
use yzapi.Upstream.{chat, Upstream}
use yzapi.Forward.{Settings, Request, Reply, replied, Offer, Run, Ending, no_upstream}
use yzapi.Forward.Loop.{Chance, forward}
use yzapi.Forward.Slots.{forward_slots}
use yzapi.Forward.Answers.{Promise, forward_lem}

abbrev account : ℕ → Upstream
account id = record {
  id = id;
  protocols = λ p. true;
  mappings = λ model. none;
  priority = pos id;
  weight = pos 1;
  max_concurrency = pos 1;
  endpoints = λ path. false;
}

abbrev settings : Settings
settings = record { max_retries = pos 2; cooldown_sec = pos 0; conversion = true }

abbrev request : Request
request = record {
  proto = chat;
  endpoint = none;
  upstreams_for = λ model. account 1 ∷ account 2 ∷ [];
  passthrough = [];
}

abbrev answering : ℕ → Reply
answering status =
    replied (record { status = status; retry_after = 0; msg = []; valid_json = true; usage = none })

abbrev offer : Reply → Offer
offer reply = record {
  asked = 1000;
  now = 1001;
  refusal = none;
  drop_usage = false;
  first = reply;
  mentions = false;
  strips = false;
  second = reply;
  left = false;
}

abbrev nth_offer : ℕ → Offer
nth_offer zero = offer (answering 429)
nth_offer (suc k) = offer (answering 200)

abbrev chance : Chance
chance = record { int_n = λ n k bound. 0; offers = λ n. nth_offer }

abbrev healthy : Tracker
healthy id = none

abbrev outcome : Run × Ending
outcome = forward settings request chance ("gpt" ∷ []) healthy new_map

forward_slots_example : current outcome.0.accounts 2 ≡ current new_map 2
forward_slots_example = forward_slots settings request chance ("gpt" ∷ []) healthy new_map 2

forward_lem_example :
    (length outcome.0.attempts ≤ 2)
    × ((outcome.1 ≡ no_upstream) ↔ (length outcome.0.attempts ≡ 0))
    × Promise settings request outcome.1
forward_lem_example = forward_lem settings request chance ("gpt" ∷ []) healthy new_map
