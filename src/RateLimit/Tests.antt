-- ===== src/RateLimit/Tests.antt =====
-- The limiter of internal/gateway/ratelimit.go at concrete calls.
use yzapi.Base.{ℕ, ◌*◌, ◌≤◌, ◌≡◌, refl, none, some, List, [], ◌∷◌, arith}
use yzapi.Base.Int.{pos}
use yzapi.Errors.{err_rate_limited, err_token_rate_limited}
use yzapi.RateLimit.Window.{second, sums, count_request, book_tokens}
use yzapi.RateLimit.Log.{no_logs, log_run}
use yzapi.RateLimit.Refine.{run-eq-log_run}
use yzapi.RateLimit.Bound.{admitted_in, rpm_bound}
use yzapi.RateLimit.{Call, admits, adds, prunes, admit, add_tokens, prune, step, run, new_limiter}

-- Two requests a minute and 100 tokens a minute, a pruning, and a request after the window.
abbrev calls : List (ℕ × Call)
calls =
    (10 * second, admits "g:1" (pos 2) (pos 100))
    ∷ (11 * second, admits "g:1" (pos 2) (pos 100))
    ∷ (12 * second, admits "g:1" (pos 2) (pos 100))
    ∷ (13 * second, adds "g:1" (pos 150))
    ∷ (69 * second, prunes (600 * second))
    ∷ (70 * second, admits "g:1" (pos 2) (pos 100))
    ∷ (73 * second, admits "g:1" (pos 2) (pos 100))
    ∷ []

calls_told :
    run new_limiter calls
    ≡ none ∷ none ∷ some err_rate_limited ∷ none ∷ none ∷ some err_token_rate_limited ∷ none ∷ []
unfolding run step admit add_tokens prune sums count_request book_tokens
calls_told = refl

run-eq-log_run_example : run new_limiter calls ≡ log_run no_logs calls
run-eq-log_run_example = run-eq-log_run calls (omega arith)

rpm_bound_example : admitted_in "g:1" 73 calls (run new_limiter calls) ≤ 2
rpm_bound_example = rpm_bound "g:1" 2 73 calls (omega arith) (omega arith) (ground arith)
