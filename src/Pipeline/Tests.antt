-- ===== src/Pipeline/Tests.antt =====
-- One request for "gpt-5" through internal/gateway/handler.go, on a server with one account.
use yzapi.Base.{◌≡◌, refl, true, false, none, some, [], ◌∷◌, if◌then◌else◌}
use text.Mathlib.Text.{◌==◌}
use yzapi.Base.Int.{pos}
use yzapi.Forward.{Reply, replied, Offer}
use yzapi.KeyCache.{Principal}
use yzapi.Limiter.Budget.{new_budget}
use yzapi.Limiter.Counter.{new_map}
use yzapi.Limiter.Gate.{new_gate}
use yzapi.Pipeline.{success, Texts, Server, Incoming, parsed}
use yzapi.Pipeline.Balanced.{handle_text-Balanced, other_requests-Balanced}
use yzapi.Pipeline.Balanced.Closing.{Balanced}
use yzapi.Errors.{err_unauthorized}
use yzapi.Pipeline.Finish.{failed, fail}
use yzapi.Pipeline.Refusals.{Refused, handle_text_refusals}
use yzapi.Pipeline.Handle.{handle_text, text_from, handle_simple, handle_custom}
use yzapi.Pipeline.Prepare.{prepare, with_principal}
use yzapi.Pipeline.Auth.{authenticate, key_of}
use yzapi.RateLimit.{new_limiter}
use yzapi.Snapshot.{Snapshot, Group}
use yzapi.Upstream.{chat, type_text, Upstream}

abbrev texts : Texts
texts = record { lower = λ s. s; trim = λ s. s; format = λ n. "7"; type_name = λ mt. "text" }

abbrev account : Upstream
account = record {
  id = 1;
  protocols = λ p. true;
  mappings = λ model. none;
  priority = pos 1;
  weight = pos 1;
  max_concurrency = pos 1;
  endpoints = λ path. true;
}

abbrev group : Group
group = record {
  id = 7;
  enabled = true;
  max_concurrency = pos 2;
  key_max_concurrency = pos 1;
  token_quota = pos 1000;
  tokens_per_minute = pos 0;
  requests_per_minute = pos 60;
  allowed = none;
  model_group_names = none;
}

abbrev snapshot : Snapshot
snapshot = record {
  accounts = λ id. some account;
  by_model = λ model. if model == "gpt-5" then account ∷ [] else [];
  model_type = λ model. if model == "gpt-5" then some type_text else none;
  lower_name = ("gpt-5", "gpt-5") ∷ [];
  lower_dup = λ model. false;
  passthrough = λ mt. [];
  endpoints = λ path. path == "/systemone";
  groups = λ id. some group;
  default_group = none;
  model_groups = λ id. none;
  group_by_name = λ name. none;
  virtual_model = "";
}

abbrev someone : Principal
someone = record {
  key_id = 3;
  key_name = "k";
  user_id = 4;
  username = "u";
  user_role = "user";
  user_enabled = true;
  key_enabled = true;
  key_expired = false;
  key_models = some ("gpt-5" ∷ []);
  key_tpm = pos 0;
  key_rpm = pos 0;
  group_id = 7;
}

abbrev reply : Reply
reply =
    replied (record { status = 200; retry_after = 0; msg = []; valid_json = true; usage = none })

abbrev offer : Offer
offer = record {
  asked = 1000;
  now = 1001;
  refusal = none;
  drop_usage = false;
  first = reply;
  mentions = false;
  strips = false;
  second = reply;
  left = false;
}

abbrev request : Incoming
request = record {
  headers = record {
    authorization = "bearer sk-1";
    x_api_key = "";
    api_key = "";
    x_goog_api_key = "";
    url_key = "";
  };
  find_key = λ key. some someone;
  snap = snapshot;
  proto = chat;
  path_model = "";
  endpoint = none;
  content_length = pos 100;
  max_body_kb = pos 1;
  body = parsed "gpt-5";
  month = 0;
  now = 1000;
  verdict = none;
  block_on_failure = false;
  route_label = "simple";
  route_group = 0;
  simple_group = 0;
  settings = record { max_retries = pos 2; cooldown_sec = pos 0; conversion = true };
  chance = record { int_n = λ n k bound. 0; offers = λ n k. offer };
  relay = record { measured = λ attempts. attempts; tracked = λ h. h; answer = (200, success) };
}

abbrev server : Server
server = record {
  quota = record { used = λ id. none; month = 0 };
  rates = new_limiter;
  budget = new_budget (pos 1_000_000);
  shared = record { gate = new_gate (pos 10) (pos 5); groups = new_map; apikeys = new_map };
  tracker = λ id. none;
  accounts = new_map;
  logged = [];
  active = [];
  touched = [];
}

handle_text-Balanced_example : Balanced server (handle_text texts request server)
handle_text-Balanced_example = handle_text-Balanced texts request server refl

other_requests-Balanced_example :
    Balanced server (handle_simple texts request server)
    × Balanced server (handle_custom texts request "/v1/systemone/" server)
other_requests-Balanced_example = other_requests-Balanced texts request server "/v1/systemone/" refl

-- the same request with no key
abbrev stranger : Incoming
stranger = record request {
  headers = record {
    authorization = "";
    x_api_key = "";
    api_key = "";
    x_goog_api_key = "";
    url_key = "";
  };
}

turned_away : (handle_text texts stranger server).1 ≡ failed err_unauthorized
unfolding handle_text text_from fail prepare with_principal authenticate key_of
turned_away = refl

handle_text_refusals_example :
    Refused [] err_unauthorized (handle_text texts stranger server).0.logged
handle_text_refusals_example =
    handle_text_refusals texts stranger server err_unauthorized refl turned_away
