-- ===== src/Upstream/Retry.antt =====
-- How a failed try is classified: `retryable` of internal/gateway/upstream.go, and `failureKind`,
-- `networkFailureUsage`, `httpFailureUsage` and `parseRetryAfter` of internal/gateway/handler.go.
use yzapi.Base.{
  ℕ, ◌+◌, ◌-◌, ◌*◌, ◌%◌, ◌^◌, ◌≤◌, ◌≡◌, Bool, not, ◌||◌, Option, none, some, leb, ltb, ◌==◌,
  if◌then◌else◌, arith,
}
use yzapi.Base.Int.{ℤ, pos, negsuc, positive, pos_part}

-- the values of `UsageStatus`; `unused` is "none", `unset` the empty text of a new record
pub data UsageStatus : Type 0 where
  confirmed partial unknown unused unset : UsageStatus

-- `retryable`
unfoldable pub retryable : ℕ → Bool
retryable status =
    status == 401
    || status == 403
    || status == 402
    || status == 408
    || status == 429
    || leb 500 status
    || status == 404

-- `failureKind`
pub data FailureKind : Type 0 where
  credentials rate_limited model_missing server_error other_failure : FailureKind

unfoldable pub failure_kind : ℕ → FailureKind
failure_kind status =
    if status == 401 || status == 403 || status == 402
    then credentials
    else if status == 429
    then rate_limited
    else if status == 404
    then model_missing
    else if leb 500 status
    then server_error
    else other_failure

-- `networkFailureUsage`; `unsent` says that the error is a dial or a DNS error
unfoldable pub network_failure_usage : Bool → Bool → UsageStatus
network_failure_usage unsent sent = if not sent then unused else if unsent then unused else unknown

-- `httpFailureUsage`
unfoldable pub http_failure_usage : ℕ → UsageStatus
http_failure_usage status = if leb 500 status then unknown else unused

-- a number below 2 ^ 64, read as an int64
unfoldable pub as_int64 : ℕ → ℤ
as_int64 n = if ltb n (2 ^ 63) then pos n else negsuc (2 ^ 64 - 1 - n)

-- `time.Duration(secs) * time.Second`, which wraps around
unfoldable pub seconds : ℤ → ℤ
unfolding as_int64
seconds (pos n) = as_int64 (n * 1_000_000_000 % 2 ^ 64)
seconds (negsuc n) = as_int64 ((2 ^ 64 - (n + 1) * 1_000_000_000 % 2 ^ 64) % 2 ^ 64)

abbrev pub longest : ℕ
longest = 15 * 60 * 1_000_000_000

abbrev clamped : ℤ → ℕ
clamped d = if not (positive d) then 0 else if ltb longest (pos_part d) then longest else pos_part d

-- `parseRetryAfter`, of what `Atoi` reads in the header and of `time.Until` of the date in it;
-- `none` for what does not parse. An empty header parses as neither.
unfoldable pub parse_retry_after : Option ℤ → Option ℤ → ℕ
unfolding seconds
parse_retry_after (some secs) until = clamped (seconds secs)
parse_retry_after none (some d) = clamped d
parse_retry_after none none = 0

-- A delay is never above 15 minutes; and a number of seconds whose nanoseconds fit an int64 is
-- obeyed exactly up to there.
pub retry_after_bounds :
    (n : ℕ) (secs until : Option ℤ)
    → n ≤ 9_223_372_036
    → (parse_retry_after secs until ≤ longest)
      × (parse_retry_after (some (pos n)) until
          ≡ (if ltb longest (n * 1_000_000_000) then longest else n * 1_000_000_000))
unfolding parse_retry_after seconds as_int64
retry_after_bounds n secs until h = (ground arith, ground arith)

too_long_is_none : parse_retry_after (some (pos 9_223_372_037)) none ≡ 0
unfolding parse_retry_after seconds as_int64
too_long_is_none = ground arith
