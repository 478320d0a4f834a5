-- ===== src/Limiter/Tests.antt =====
-- The gate and the budget of internal/gateway/limiter.go at concrete schedules.
use yzapi.Base.{◌≤◌, ◌≡◌, refl, ◌⊎◌, true, false, List, [], ◌∷◌, arith}
use yzapi.Base.Int.{pos, ◌≤ℤ◌, ◌<ℤ◌}
use yzapi.Limiter.Gate.Schedule.{Act, arrives, polls, releases, signals_one, init, act, run}
use yzapi.Limiter.Gate.Wakeups.{Sound, no_lost_wakeup}
use yzapi.Limiter.Gate.Bounds.{gate_holds}
use yzapi.Base.Pick.{pick}
use yzapi.Limiter.Budget.Conserved.{Balanced}
use yzapi.Limiter.Budget.Conserved as Conserved
use yzapi.Limiter.Budget.Bounds.{start, holding, budget_bounds}

-- One slot and one place in line: the second caller sleeps, and is woken by the first one's release.
abbrev crowded : List Act
crowded = arrives ∷ arrives ∷ polls false ∷ arrives ∷ []

crowded_sleeps : (run (init (pos 1) (pos 1)) crowded).asleep ≡ 1
unfolding run act
crowded_sleeps = refl

no_lost_wakeup_example :
    (pos 0 <ℤ (run (init (pos 1) (pos 1)) crowded).gate.limit)
    × ((run (init (pos 1) (pos 1)) crowded).gate.limit
        ≤ℤ (run (init (pos 1) (pos 1)) crowded).gate.inflight)
unfolding run act
no_lost_wakeup_example = no_lost_wakeup (pos 1) (pos 1) crowded refl refl refl (omega arith)

woken : (run (init (pos 1) (pos 1)) (releases ∷ [])).signals ≡ 0
unfolding run act
woken = refl

served :
    (run (run (init (pos 1) (pos 1)) crowded) (releases ∷ signals_one ∷ polls true ∷ [])).holders
    ≡ 1
unfolding run act
served = refl

gate_holds_example :
    Sound (run (init (pos 1) (pos 1)) crowded)
    × ((run (init (pos 1) (pos 1)) crowded).gate.inflight ≤ℤ pos 1)
    × ((run (init (pos 1) (pos 1)) crowded).gate.waiting ≤ℤ pos 1)
gate_holds_example = gate_holds 1 1 crowded (omega arith) (omega arith) (omega arith)

-- 60 of 100 bytes, then 70 more that have to wait, then 40 that fit.
abbrev uploads : List Conserved.Act
uploads =
    Conserved.Act.asks false (pos 60)
    ∷ Conserved.Act.asks false (pos 70)
    ∷ Conserved.Act.asks false (pos 40)
    ∷ Conserved.Act.returns 1
    ∷ []

uploads_held : (Conserved.run (start 100) uploads).budget.used ≡ pos 40
unfolding Conserved.run Conserved.act pick
uploads_held = ground arith

budget_bounds_example :
    Balanced (Conserved.run (start 100) uploads)
    × ((Conserved.total (Conserved.run (start 100) uploads).held ≤ 100)
        ⊎ (holding (Conserved.run (start 100) uploads).held ≤ 1))
budget_bounds_example = budget_bounds 100 uploads (omega arith) (omega arith)
