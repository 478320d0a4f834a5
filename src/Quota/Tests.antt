-- ===== src/Quota/Tests.antt =====
-- internal/gateway/quota.go in a concrete month.
use yzapi.Base.{◌≡◌, refl, true, some, none, List, [], ◌∷◌, arith}
use yzapi.Base.Int.{pos}
use yzapi.Quota.{
  Quota, usage, exceeded, Call, refreshes, adds, run, step, add, refresh, collect, keep_higher,
}
use yzapi.Quota.Monthly.{added, quota_enforced}

abbrev fresh : Quota
fresh = record { used = λ id. none; month = 7 }

-- The database lags behind: it answers 10 after 60 were added.
abbrev lagging : List Call
lagging = adds 1 (pos 60) ∷ refreshes (some ((1, 10) ∷ (2, 5) ∷ [])) ∷ adds 1 (pos 40) ∷ []

not_lowered : usage 1 (run 7 fresh lagging) ≡ 100
unfolding run step add refresh collect keep_higher
not_lowered = refl

quota_enforced_example : exceeded 1 (pos 100) (run 7 fresh lagging) ≡ true
unfolding added
quota_enforced_example = quota_enforced 7 1 fresh lagging (pos 100) refl refl (omega arith)
