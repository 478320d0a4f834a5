-- ===== src/RateLimit.antt =====
-- internal/gateway/ratelimit.go: requests and tokens of the last 60 seconds, per subject, in
-- one-second ring buffers. A time is a number of nanoseconds since 1970.
pub mod Window
pub mod Log
pub mod Refine
pub mod Bound
mod Tests
use yzapi.Base.{
  ℕ, ◌+◌, String, Bool, not, ◌&&◌, Option, none, some, List, [], ◌∷◌, ltb, if◌then◌else◌,
}
use yzapi.Base.Int.{ℤ, pos, positive, leb_ℤ}
use yzapi.Base.Texts.{put}
use yzapi.Errors.{GatewayError, err_rate_limited, err_token_rate_limited}
use Window.{RateWindow, zero_window, sums, count_request, book_tokens}

-- `rateLimiter`; a missing key is `none`
pub record RateLimiter : Type 0 where
  pub m : String → Option RateWindow

-- `newRateLimiter`
abbrev pub new_limiter : RateLimiter
new_limiter = record { m = λ id. none }

abbrev pub found : Option RateWindow → RateWindow
found none = zero_window
found (some w) = w

-- `window`: the window of the subject, made if it is missing, stamped with the time of use
pub window : RateLimiter → String → ℕ → RateWindow
window r id now = record (found (r.m id)) { seen = now }

-- the write through the pointer that `window` returned
abbrev pub store : RateLimiter → String → RateWindow → RateLimiter
store r id w = record { m = put r.m id (some w) }

-- `admit`
unfoldable pub admit : RateLimiter → String → ℤ → ℤ → ℕ → RateLimiter × Option GatewayError
unfolding window
admit r id rpm tpm now =
    if not (positive rpm) && not (positive tpm)
    then (r, none)
    else let w = window r id now in
      let (reqs, toks) = sums w now in
      if positive rpm && leb_ℤ rpm (pos reqs)
      then (store r id w, some err_rate_limited)
      else if positive tpm && leb_ℤ tpm (pos toks)
      then (store r id w, some err_token_rate_limited)
      else (store r id (count_request w now), none)

-- `addTokens`
pub add_tokens : RateLimiter → String → ℤ → ℕ → RateLimiter
unfolding window
add_tokens r id n now =
    if not (positive n) then r else store r id (book_tokens (window r id now) now n)

-- `prune`: `seen` is before `now - max_idle`
pub prune : RateLimiter → ℕ → ℕ → RateLimiter
prune r max_idle now = record {
  m = λ id. elim (r.m id) [
    | none ↦ none
    | some w ↦ if ltb (w.seen + max_idle) now then none else some w
  ];
}

-- One call, at the time that the clock shows.
pub data Call : Type 0 where
  admits : String → ℤ → ℤ → Call
  adds : String → ℤ → Call
  prunes : ℕ → Call

-- The new state and what the caller is told.
pub step : RateLimiter → ℕ × Call → RateLimiter × Option GatewayError
step r (now, admits id rpm tpm) = admit r id rpm tpm now
step r (now, adds id n) = (add_tokens r id n now, none)
step r (now, prunes max_idle) = (prune r max_idle now, none)

-- What the callers are told, in order.
pub run : RateLimiter → List (ℕ × Call) → List (Option GatewayError)
run r [] = []
run r (c ∷ cs) = (step r c).1 ∷ run (step r c).0 cs
