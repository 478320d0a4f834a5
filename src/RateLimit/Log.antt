-- ===== src/RateLimit/Log.antt =====
-- The limiter of internal/gateway/ratelimit.go as it is meant: each subject has the log of all
-- that was ever booked for it, and a request is judged by the last 60 seconds of that log.
use yzapi.Base.{
  ℕ, ◌*◌, ◌≤◌, ◌<◌, String, not, ◌&&◌, Option, none, some, List, [], ◌∷◌, if◌then◌else◌,
}
use yzapi.Base.Int.{ℤ, pos, pos_part, positive, leb_ℤ}
use yzapi.Base.Texts.{put}
use yzapi.Errors.{GatewayError, err_rate_limited, err_token_rate_limited}
use yzapi.RateLimit.Window.{unix, second}
use yzapi.RateLimit.Window.Spec.{Event, spent}
use yzapi.RateLimit.{Call, admits, adds, prunes}

abbrev pub Logs : Type 0
Logs = String → List Event

abbrev pub no_logs : Logs
no_logs id = []

abbrev pub requests_in : ℕ → List Event → ℕ
requests_in = spent (λ e. e.reqs)

abbrev pub tokens_in : ℕ → List Event → ℕ
tokens_in = spent (λ e. e.toks)

abbrev pub book : Logs → String → Event → Logs
book logs id e = put logs id (e ∷ logs id)

unfoldable pub log_admit : Logs → String → ℤ → ℤ → ℕ → Logs × Option GatewayError
log_admit logs id rpm tpm now =
    if not (positive rpm) && not (positive tpm)
    then (logs, none)
    else if positive rpm && leb_ℤ rpm (pos (requests_in (unix now) (logs id)))
    then (logs, some err_rate_limited)
    else if positive tpm && leb_ℤ tpm (pos (tokens_in (unix now) (logs id)))
    then (logs, some err_token_rate_limited)
    else (book logs id (record { at = unix now; reqs = 1; toks = 0 }), none)

unfoldable pub log_add : Logs → String → ℤ → ℕ → Logs
log_add logs id n now =
    if not (positive n)
    then logs
    else book logs id (record { at = unix now; reqs = 0; toks = pos_part n })

-- Pruning is invisible here.
unfoldable pub log_step : Logs → ℕ × Call → Logs × Option GatewayError
log_step logs (now, admits id rpm tpm) = log_admit logs id rpm tpm now
log_step logs (now, adds id n) = (log_add logs id n now, none)
log_step logs (now, prunes max_idle) = (logs, none)

unfoldable pub log_run : Logs → List (ℕ × Call) → List (Option GatewayError)
log_run logs [] = []
log_run logs (c ∷ cs) = (log_step logs c).1 ∷ log_run (log_step logs c).0 cs

-- A call drops subjects only after 60 idle seconds.
abbrev pub IsPatient : Call → Type 0
IsPatient (admits id rpm tpm) = Unit {0}
IsPatient (adds id n) = Unit {0}
IsPatient (prunes max_idle) = 60 * second ≤ max_idle

-- The clock does not go back, and has left second 0 of 1970.
abbrev pub Ordered : ℕ → List (ℕ × Call) → Type 0
Ordered t [] = Unit {0}
Ordered t ((now, c) ∷ cs) = ((t ≤ now) × (0 < unix now) × IsPatient c) × Ordered now cs
