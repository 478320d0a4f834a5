-- ===== src/Usage/Fold.antt =====
-- The request's usage of internal/gateway/handler.go against a description that is not a loop.
use yzapi.Base.{ℕ, ◌+◌, max, ◌≡◌, refl, Bool, true, false, List, [], ◌∷◌, if◌then◌else◌, arith}
use yzapi.Forward.{Attempt}
use yzapi.Upstream.Retry.{UsageStatus, confirmed, partial, unknown, unused, unset}
use yzapi.Usage.{Totals, nothing, include, totals, overall, usage_from_attempts}

-- How bad a status is for the request.
abbrev pub severity : UsageStatus → ℕ
severity unset = 0
severity unused = 0
severity confirmed = 1
severity partial = 2
severity unknown = 3

-- The worst status of the attempts.
unfoldable pub worst : List Attempt → ℕ
worst [] = 0
worst (a ∷ attempts) = max (severity a.usage) (worst attempts)

-- the tokens of an attempt count when they are known at least in part
abbrev pub counts : UsageStatus → Bool
counts confirmed = true
counts partial = true
counts unknown = false
counts unused = false
counts unset = false

unfoldable pub sum_known : (Attempt → ℕ) → List Attempt → ℕ
sum_known f [] = 0
sum_known f (a ∷ attempts) = (if counts a.usage then f a else 0) + sum_known f attempts

include-severity :
    (u : UsageStatus) (a : Attempt) (t : Totals)
    → severity (overall (include u a t)) ≡ max (severity (overall t)) (severity u)
unfolding include overall
include-severity confirmed a t = ground arith
include-severity partial a t = ground arith
include-severity unknown a t = ground arith
include-severity unused a t = ground arith
include-severity unset a t = ground arith

include-tokens :
    (u : UsageStatus) (a : Attempt) (t : Totals)
    → ((include u a t).prompt ≡ t.prompt + (if counts u then a.prompt else 0))
      × ((include u a t).completion ≡ t.completion + (if counts u then a.completion else 0))
unfolding include
include-tokens confirmed a t = (refl, refl)
include-tokens partial a t = (refl, refl)
include-tokens unknown a t = (omega arith, omega arith)
include-tokens unused a t = (omega arith, omega arith)
include-tokens unset a t = (omega arith, omega arith)

totals-severity :
    (attempts : List Attempt) (t : Totals)
    → severity (overall (totals attempts t)) ≡ max (severity (overall t)) (worst attempts)
unfolding totals worst
totals-severity [] t = omega arith
totals-severity (a ∷ attempts) t =
    omega (arith, include-severity a.usage a t, totals-severity attempts (include a.usage a t))

totals-tokens :
    (attempts : List Attempt) (t : Totals)
    → ((totals attempts t).prompt ≡ t.prompt + sum_known (λ a. a.prompt) attempts)
      × ((totals attempts t).completion ≡ t.completion + sum_known (λ a. a.completion) attempts)
unfolding totals sum_known
totals-tokens [] t = (omega arith, omega arith)
totals-tokens (a ∷ attempts) t =
    let step = include-tokens a.usage a t in
    let later = totals-tokens attempts (include a.usage a t) in (omega arith, omega arith)

-- The status of a request is the worst of its attempts', in the order none, confirmed, partial,
-- unknown, and its tokens are the sums over the attempts whose usage is confirmed or partial.
pub usage_from_attempts_lem :
    (attempts : List Attempt)
    → (severity (usage_from_attempts attempts).0 ≡ worst attempts)
      × ((usage_from_attempts attempts).1 ≡ sum_known (λ a. a.prompt) attempts)
      × ((usage_from_attempts attempts).2 ≡ sum_known (λ a. a.completion) attempts)
unfolding usage_from_attempts overall
usage_from_attempts_lem attempts =
    let status = totals-severity attempts nothing in
    let tokens = totals-tokens attempts nothing in (omega arith, omega arith, omega arith)
