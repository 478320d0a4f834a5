-- ===== src/Usage.antt =====
-- `usageFromAttempts` of internal/gateway/handler.go: the usage of a request from its attempts.
pub mod Fold
mod Tests
use yzapi.Base.{ℕ, ◌+◌, Bool, true, false, List, [], ◌∷◌, if◌then◌else◌}
use yzapi.Forward.{Attempt}
use yzapi.Upstream.Retry.{UsageStatus, confirmed, partial, unknown, unused, unset}

-- the variables of the loop
pub record Totals : Type 0 where
  pub has_unknown : Bool
  pub has_partial : Bool
  pub has_confirmed : Bool
  pub prompt : ℕ
  pub completion : ℕ

abbrev pub nothing : Totals
nothing = record {
  has_unknown = false;
  has_partial = false;
  has_confirmed = false;
  prompt = 0;
  completion = 0;
}

-- the `switch` of the loop
unfoldable pub include : UsageStatus → Attempt → Totals → Totals
include confirmed a t = record t {
  has_confirmed = true;
  prompt = t.prompt + a.prompt;
  completion = t.completion + a.completion;
}
include partial a t = record t {
  has_partial = true;
  prompt = t.prompt + a.prompt;
  completion = t.completion + a.completion;
}
include unknown a t = record t { has_unknown = true }
include unused a t = t
include unset a t = t

unfoldable pub totals : List Attempt → Totals → Totals
totals [] t = t
totals (a ∷ attempts) t = totals attempts (include a.usage a t)

-- the `switch` after the loop
unfoldable pub overall : Totals → UsageStatus
overall t =
    if t.has_unknown
    then unknown
    else if t.has_partial
    then partial
    else if t.has_confirmed
    then confirmed
    else unused

-- `usageFromAttempts`
unfoldable pub usage_from_attempts : List Attempt → UsageStatus × ℕ × ℕ
unfolding totals
usage_from_attempts attempts =
    let t = totals attempts nothing in (overall t, t.prompt, t.completion)
