-- ===== src/Pipeline/Prepare.antt =====
-- `prepare` of internal/gateway/handler.go: authentication, the body and its memory, the model, the
-- rights of the group and the key, the quota and the rates.
use Prim.Native.String as Text
use text.Mathlib.Text.{◌==◌}
use yzapi.Base.{
  ◌*◌, String, Bool, true, false, not, ◌||◌, Option, none, some, Result, ok, err, if◌then◌else◌,
  List, [], ◌∷◌,
}
use yzapi.Base.Int.{ℤ, pos, pos_part, positive, ltb_ℤ}
use yzapi.Errors.{
  GatewayError, new_err, err_memory_budget, err_body_too_large, err_bad_json, err_model_not_found,
  err_model_not_allowed, err_key_model_denied, err_quota_exceeded,
}
use yzapi.KeyCache.{Principal}
use yzapi.Limiter.Budget.{Budget, Place, taken, gave_up, waiting}
use yzapi.Limiter.Budget as Budgets
use yzapi.Pipeline.{
  Texts, Server, Incoming, Request, Body, too_large, unreadable, bad_json, bad_form, parsed,
  new_request,
}
use yzapi.Pipeline.Auth.{authenticate, choose_group}
use yzapi.Quota.{exceeded}
use yzapi.RateLimit.{RateLimiter}
use yzapi.RateLimit as Rates
use yzapi.Snapshot.{Snapshot, Group, ModelGroup}
use yzapi.Snapshot.Resolve.{Resolution, found, unknown, ambiguous, resolve, same_type}
use yzapi.Upstream.{ProtoType, protocol_type}

-- the limit of a body, and what is reserved for it
abbrev pub body_limit : Incoming → ℤ
body_limit i =
    if positive i.max_body_kb then pos (pos_part i.max_body_kb * 1024) else pos 20_971_520

abbrev pub reserve : Incoming → ℤ
reserve i =
    if not (positive i.content_length) || ltb_ℤ (body_limit i) i.content_length
    then body_limit i
    else i.content_length

-- whether a group may use a model, by its name or as a model group
abbrev group_named : Option ModelGroup → Option (String → Bool) → Bool
group_named none names = false
group_named (some mg) none = false
group_named (some mg) (some names) = names mg.name

abbrev pub group_allows : Snapshot → Group → String → Bool
group_allows snap g model = elim g.allowed [
  | none ↦ true
  | some models ↦ models model || group_named (snap.group_by_name model) g.model_group_names
]

-- whether a key may use a model
unfoldable pub listed : List String → String → Bool
listed [] m = false
listed (x ∷ xs) m = let rest = listed xs m in if x == m then true else rest

abbrev pub key_allows : Principal → String → Bool
key_allows p model = elim p.key_models [ none ↦ true | some models ↦ listed models model ]

-- `activeUsers.touch` and `keys.touch`
abbrev pub noted : Principal → Server → Server
noted p s = record s { active = p.user_id ∷ s.active; touched = p.key_id ∷ s.touched }

module _ (t : Texts) (i : Incoming) where
  abbrev pub api_type : ProtoType
  api_type = protocol_type i.proto

  -- the type of a resolved model, and then the rights to it
  unfoldable pub allow : Principal → Group → String → Option ProtoType → Result GatewayError String
  allow p g model none = err (
      new_err 400 "model_type_mismatch" (
        Text.◌++◌ "Model '"
          (Text.◌++◌ model "' is a  model and cannot be used with this endpoint")))
  allow p g model (some mt) =
      if not (same_type mt api_type)
      then err (
          new_err 400 "model_type_mismatch" (
            Text.◌++◌ "Model '" (
              Text.◌++◌ model (
                Text.◌++◌ "' is a "
                  (Text.◌++◌ (t.type_name mt) " model and cannot be used with this endpoint")))))
      else if not (group_allows i.snap g model)
      then err err_model_not_allowed
      else if not (key_allows p model)
      then err err_key_model_denied
      else ok model

  unfoldable pub allow_resolved :
      Principal → Group → String → Resolution → Result GatewayError String
  unfolding allow
  allow_resolved p g model ambiguous = err (
      new_err 400 "model_ambiguous" (
        Text.◌++◌ "Model '" (
          Text.◌++◌ model
            "' matches more than one configured model; use the exact configured name")))
  allow_resolved p g model unknown = err err_model_not_found
  allow_resolved p g model (found canonical mt) = allow p g canonical mt

  -- the client's name of the model
  abbrev pub asked_model : String → String
  asked_model in_body = t.trim (if i.path_model == "" then in_body else i.path_model)

  -- from the body to the canonical name of the model
  unfoldable pub read_model : Principal → Group → Body → Result GatewayError String
  unfolding allow_resolved
  read_model p g too_large = err err_body_too_large
  read_model p g unreadable = err (new_err 400 "invalid_body" "Could not read request body")
  read_model p g (bad_form message) =
      err (new_err 400 "invalid_body" (Text.◌++◌ "Could not parse multipart form: " message))
  read_model p g bad_json = err err_bad_json
  read_model p g (parsed in_body) =
      let model = asked_model in_body in
      if model == ""
      then err (new_err 400 "missing_model" "The 'model' field is required")
      else allow_resolved p g model (resolve t.lower i.snap model (some api_type))

  abbrev pub group_key : Group → String
  group_key g = Text.◌++◌ "g:" (t.format g.id)

  abbrev pub key_key : Principal → String
  key_key p = Text.◌++◌ "k:" (t.format p.key_id)

  -- the rates: the group's, then the key's
  abbrev rate_key :
      Principal → RateLimiter × Option GatewayError → RateLimiter × Option GatewayError
  rate_key p (rates, some e) = (rates, some e)
  rate_key p (rates, none) = Rates.admit rates (key_key p) p.key_rpm p.key_tpm i.now

  unfoldable pub admit_rates : Principal → Group → RateLimiter → RateLimiter × Option GatewayError
  admit_rates p g rates =
      rate_key p (Rates.admit rates (group_key g) g.requests_per_minute g.tokens_per_minute i.now)

  -- the quota and the rates, for a model that may be used
  unfoldable pub admit_usage :
      Principal
      → Group
      → Result GatewayError String
      → Request
      → Server
      → Server × Request × Option GatewayError
  unfolding admit_rates
  admit_usage p g (err e) req s = (s, req, some e)
  admit_usage p g (ok model) req s =
      if exceeded g.id g.token_quota s.quota
      then (s, record req { model = model }, some err_quota_exceeded)
      else let (rates, e) = admit_rates p g s.rates in
        (record s { rates = rates }, record req { model = model }, e)

  -- the memory of the body, and what follows it
  unfoldable pub take_body :
      Principal → Group → Budget × Place → Request → Server → Server × Request × Option GatewayError
  unfolding admit_usage read_model
  take_body p g (budget, taken) req s =
      admit_usage p g (read_model p g i.body) (record req { reserved = reserve i })
        (record s { budget = budget })
  take_body p g (budget, gave_up) req s =
      (record s { budget = budget }, req, some err_memory_budget)
  take_body p g (budget, waiting) req s =
      (record s { budget = budget }, req, some err_memory_budget)

  unfoldable pub with_group :
      Principal
      → Result GatewayError Group
      → Request
      → Server
      → Server × Request × Option GatewayError
  unfolding take_body
  with_group p (err e) req s = (s, req, some e)
  with_group p (ok g) req s =
      take_body p g (Budgets.acquire true (reserve i) s.budget) (record req { group = some g })
        (noted p s)

  unfoldable pub with_principal :
      Result GatewayError Principal → Request → Server → Server × Request × Option GatewayError
  unfolding with_group
  with_principal (err e) req s = (s, req, some e)
  with_principal (ok p) req s =
      with_group p (choose_group i.snap p) (record req { principal = some p }) s

  -- `prepare`. The wait for memory is at its end: there is room, or the time is up.
  unfoldable pub prepare : Server → Server × Request × Option GatewayError
  unfolding with_principal
  prepare s = with_principal (authenticate t i.find_key i.headers) new_request s
