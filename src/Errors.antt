-- ===== src/Errors.antt =====
-- internal/gateway/errors.go: the errors of the data plane. Rendering as JSON is not modelled.
use yzapi.Base.{ℕ, String, ◌==◌, leb, if◌then◌else◌, ◌||◌}

-- `GatewayError`
pub record GatewayError : Type 0 where
  pub status : ℕ
  pub type : String
  pub code : String
  pub message : String

-- the `switch` of `newErr`
pub err_type : ℕ → String
err_type status =
    if status == 401
    then "authentication_error"
    else if status == 403
    then "permission_error"
    else if status == 404
    then "not_found_error"
    else if status == 429
    then "rate_limit_error"
    else if leb 500 status
    then "api_error"
    else "invalid_request_error"

-- `newErr`
unfoldable pub new_err : ℕ → String → String → GatewayError
unfolding err_type
new_err status code msg = record {
  status = status;
  type = err_type status;
  code = code;
  message = msg;
}

-- `geminiStatus`
unfoldable pub gemini_status : ℕ → String
gemini_status status =
    if status == 400 || status == 413
    then "INVALID_ARGUMENT"
    else if status == 401
    then "UNAUTHENTICATED"
    else if status == 403
    then "PERMISSION_DENIED"
    else if status == 404
    then "NOT_FOUND"
    else if status == 429
    then "RESOURCE_EXHAUSTED"
    else if status == 503
    then "UNAVAILABLE"
    else "INTERNAL"

abbrev pub err_unauthorized : GatewayError
err_unauthorized = new_err 401 "invalid_api_key" "Invalid or missing API key"

abbrev pub err_key_disabled : GatewayError
err_key_disabled = new_err 401 "api_key_disabled" "API key is disabled"

abbrev pub err_key_expired : GatewayError
err_key_expired = new_err 401 "api_key_expired" "API key has expired"

abbrev pub err_key_model_denied : GatewayError
err_key_model_denied =
    new_err 403 "key_model_not_allowed" "This API key is not allowed to use this model"

abbrev pub err_rate_limited : GatewayError
err_rate_limited = new_err 429 "rate_limited" "Requests per minute limit reached"

abbrev pub err_token_rate_limited : GatewayError
err_token_rate_limited = new_err 429 "token_rate_limited" "Tokens per minute limit reached"

abbrev pub err_user_disabled : GatewayError
err_user_disabled = new_err 403 "user_disabled" "User account is disabled"

abbrev pub err_group_disabled : GatewayError
err_group_disabled = new_err 403 "group_disabled" "User group is disabled"

abbrev pub err_model_not_found : GatewayError
err_model_not_found = new_err 404 "model_not_found" "The requested model does not exist"

abbrev pub err_model_not_allowed : GatewayError
err_model_not_allowed =
    new_err 403 "model_not_allowed" "Your group is not allowed to use this model"

abbrev pub err_quota_exceeded : GatewayError
err_quota_exceeded = new_err 429 "quota_exceeded" "Token quota for your group has been exhausted"

abbrev pub err_gateway_busy : GatewayError
err_gateway_busy =
    new_err 429 "gateway_busy" "Gateway concurrency limit reached, request queue is full"

abbrev pub err_queue_timeout : GatewayError
err_queue_timeout =
    new_err 429 "queue_timeout" "Request timed out while waiting in the gateway queue"

abbrev pub err_group_busy : GatewayError
err_group_busy = new_err 429 "group_rate_limited" "User group concurrency limit reached"

abbrev pub err_key_busy : GatewayError
err_key_busy = new_err 429 "key_rate_limited" "API key concurrency limit reached"

abbrev pub err_no_upstream : GatewayError
err_no_upstream =
    new_err 503 "no_available_upstream" "No healthy upstream account can serve this model"

abbrev pub err_endpoint_not_found : GatewayError
err_endpoint_not_found = new_err 404 "not_found" "not found"

abbrev pub err_body_too_large : GatewayError
err_body_too_large = new_err 413 "request_too_large" "Request body exceeds the configured limit"

abbrev pub err_bad_json : GatewayError
err_bad_json = new_err 400 "invalid_json" "Request body is not valid JSON"

abbrev pub err_content_blocked : GatewayError
err_content_blocked = new_err 400 "content_blocked" "Request blocked by content compliance policy"

abbrev pub err_conversion_failed : GatewayError
err_conversion_failed =
    new_err 400 "protocol_conversion_failed"
      "Request could not be converted to a protocol supported by the upstream"

abbrev pub err_memory_budget : GatewayError
err_memory_budget =
    new_err 503 "gateway_overloaded" "Gateway request-body memory budget exhausted, try again later"

abbrev pub err_compliance_down : GatewayError
err_compliance_down =
    new_err 503 "compliance_unavailable"
      "Content compliance service is unavailable and the policy requires blocking"
