-- ===== src/Limiter/Gate/Wakeups.antt =====
-- The gate of internal/gateway/limiter.go loses no wakeup, and its counts are right.
use yzapi.Base.{◌+◌, ◌<◌, ◌≡◌, refl, ◌⊎◌, inl, inr, List, [], ◌∷◌, arith}
use yzapi.Base.Int.{ℤ, pos, ◌≤ℤ◌, ◌<ℤ◌}
use yzapi.Limiter.Gate.Schedule.{
  System, Act, arrives, polls, releases, configures, signals_one, broadcasts_all, alarm, init, act,
  run,
}

-- The counts are those of the callers, and a sleeper beside a free slot has a wakeup on its way.
pub record Sound (s : System) : Type 0 where
  pub inflight : s.gate.inflight ≡ pos s.holders
  pub waiting : s.gate.waiting ≡ pos (s.awake + s.asleep)
  pub woken :
      (0 < s.broadcasts)
      ⊎ (s.asleep ≡ 0)
      ⊎ ((pos 0 <ℤ s.gate.limit) × (s.gate.limit ≤ℤ pos (s.holders + s.awake + s.signals)))

pub act-Sound : (s : System) (a : Act) → Sound s → Sound (act s a)
unfolding act
act-Sound s arrives v = ground arith
act-Sound s (polls over) v = ground arith
act-Sound s releases v = ground arith
act-Sound s (configures limit queue) v = ground arith
act-Sound s signals_one v = ground arith
act-Sound s broadcasts_all v = ground arith
act-Sound s alarm v = ground arith

run-Sound : (s : System) (acts : List Act) → Sound s → Sound (run s acts)
unfolding run
run-Sound s [] v = v
run-Sound s (a ∷ rest) v = run-Sound (act s a) rest (act-Sound s a v)

-- The counts of the gate are those of the callers, however the callers are interleaved and
-- whatever the limits are set to meanwhile.
pub run-init-Sound : (limit queue : ℤ) (acts : List Act) → Sound (run (init limit queue) acts)
run-init-Sound limit queue acts =
    run-Sound (init limit queue) acts
      (record { inflight = refl; waiting = refl; woken = inr (inl refl) })

-- No wakeup is lost: once no caller is awake in the loop and no `Signal` or `Broadcast` is still to
-- come, a caller that sleeps does so because there is a limit and the slots are all taken.
pub no_lost_wakeup :
    (limit queue : ℤ) (acts : List Act)
    → (run (init limit queue) acts).awake ≡ 0
    → (run (init limit queue) acts).signals ≡ 0
    → (run (init limit queue) acts).broadcasts ≡ 0
    → 0 < (run (init limit queue) acts).asleep
    → (pos 0 <ℤ (run (init limit queue) acts).gate.limit)
      × ((run (init limit queue) acts).gate.limit ≤ℤ (run (init limit queue) acts).gate.inflight)
no_lost_wakeup limit queue acts a b c d = ground (arith, run-init-Sound limit queue acts)
