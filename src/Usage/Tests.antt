-- ===== src/Usage/Tests.antt =====
-- The usage of a request of internal/gateway/handler.go with three attempts.
use yzapi.Base.{ℕ, ◌≡◌, refl, List, [], ◌∷◌}
use yzapi.Forward.{Attempt}
use yzapi.Upstream.{chat}
use yzapi.Upstream.Retry.{UsageStatus, confirmed, partial, unused}
use yzapi.Usage.{include, totals, overall, usage_from_attempts}
use yzapi.Usage.Fold.{severity, worst, sum_known, usage_from_attempts_lem}

abbrev spent : UsageStatus → ℕ → Attempt
spent usage tokens = record {
  account = 1;
  protocol = chat;
  model = "m";
  status = 200;
  error = [];
  usage = usage;
  prompt = tokens;
  completion = 1;
}

abbrev three : List Attempt
three = spent unused 9 ∷ spent partial 3 ∷ spent confirmed 4 ∷ []

three_usage : usage_from_attempts three ≡ (partial, 7, 2)
unfolding usage_from_attempts totals include overall
three_usage = refl

usage_from_attempts_lem_example :
    (severity (usage_from_attempts three).0 ≡ worst three)
    × ((usage_from_attempts three).1 ≡ sum_known (λ a. a.prompt) three)
    × ((usage_from_attempts three).2 ≡ sum_known (λ a. a.completion) three)
usage_from_attempts_lem_example = usage_from_attempts_lem three
