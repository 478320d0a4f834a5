-- ===== src/Health/Tests.antt =====
-- The health tracker of internal/gateway/health.go at concrete accounts.
use yzapi.Base.{
  ℕ, true, false, ◌⊎◌, ◌<◌, ◌+◌, ◌*◌, ◌≤◌, ◌≡◌, refl, none, some, List, [], ◌∷◌, arith, update,
}
use yzapi.Health.Truncate.{Bytes, ellipsis, truncate}
use yzapi.Health.Circuit.{answers, all_true, all_false, single_probe}
use yzapi.Health.Backoff.{multiple, backoff_bounds, fail_closes}
use yzapi.Health.Recovery.{Event, history, ok_reopens}
use yzapi.Health.Persist.{Act, fails_for, lands, landed, init, run, act}
use yzapi.Health.Persist.Settled.{row_of}
use yzapi.Health.Persist.Runs.{rows_settle}
use yzapi.Health.Persist.Resurrected.{late, late_after_reset}
use yzapi.Base.Pick.{pick}
use yzapi.Health.{
  Tracker, AccountHealth, zero_health, second, max_cooldown, available, backoff, capped, fail,
  fail_for, ok, is_cooling,
}

-- "é" twice, cut to 3 bytes
abbrev accents : Bytes
accents = 0xc3 ∷ 0xa9 ∷ 0xc3 ∷ 0xa9 ∷ []

truncated : truncate accents 3 ≡ ellipsis
unfolding truncate
truncated = refl

-- An account whose one failure has cooled down.
abbrev failed : AccountHealth
failed = record zero_health { failures = 1; cooldown_until = 10 * second; seq = 1 }

abbrev one_failed : Tracker
one_failed = update (λ id. none) 7 (some failed)

single_probe_example :
    answers 7 (12 * second ∷ 40 * second ∷ []) (available 7 (11 * second) one_failed).0
    ≡ all_false (12 * second ∷ 40 * second ∷ [])
unfolding available
single_probe_example =
    single_probe 7 (11 * second) one_failed failed (12 * second ∷ 40 * second ∷ []) refl
      (λ e. omega arith) refl (omega arith)

backoff_bounds_example :
    (((multiple (60 * second) 5 ≤ max_cooldown)
        × (backoff (60 * second) 5 ≡ multiple (60 * second) 5))
      ⊎ ((max_cooldown < multiple (60 * second) 5) × (backoff (60 * second) 5 ≡ max_cooldown)))
    × (backoff (60 * second) 5 ≤ backoff (60 * second) 6)
    × (backoff (60 * second) 5 ≤ max_cooldown)
    × (backoff (60 * second) 5 ≤ 16 * (60 * second))
    × ((60 * second ≤ backoff (60 * second) 5) ⊎ (max_cooldown ≤ backoff (60 * second) 5))
backoff_bounds_example = backoff_bounds (60 * second) 5

-- Two refusals during the two minutes after a second failure, and a probe after them; one refusal
-- during five seconds.
fail_closes_example :
    (answers 7
        (20 * second ∷ 139 * second ∷ 140 * second ∷ [])
        (fail 7 (60 * second) [] (20 * second) one_failed).0
      ≡ false ∷ false ∷ true ∷ [])
    × (answers 7
          (24 * second ∷ 140 * second ∷ [])
          (fail_for 7 (5 * second) [] (20 * second) one_failed).0
        ≡ false ∷ true ∷ [])
unfolding backoff capped
fail_closes_example =
    fail_closes 7 (60 * second) (5 * second) (20 * second) (140 * second) [] one_failed
      (20 * second ∷ 139 * second ∷ []) (24 * second ∷ [])
      ((omega arith, omega arith), ((omega arith, omega arith), tt))
      ((omega arith, omega arith), tt)

abbrev troubled : List (ℕ × Event)
troubled = (7, Event.fails (60 * second) [] second) ∷ (7, Event.asks (62 * second)) ∷ []

ok_reopens_example :
    answers 7 (63 * second ∷ 64 * second ∷ []) (ok 7 (history troubled (λ k. none))).0
    ≡ all_true (63 * second ∷ 64 * second ∷ [])
ok_reopens_example = ok_reopens troubled 7 (63 * second ∷ 64 * second ∷ [])

-- Two failures whose writes land in the wrong order.
abbrev crossed : List Act
crossed =
    fails_for 7 second [] second ∷ fails_for 7 second accents (2 * second) ∷ lands 0 ∷ lands 0 ∷ []

abbrev settled : AccountHealth
settled = record zero_health {
  failures = 2;
  cooldown_until = 3 * second;
  last_error = accents;
  seq = 2;
  persisted = 2;
}

rows_settle_example : (run init crossed).rows 7 ≡ some (row_of settled)
unfolding run act pick landed fail_for
rows_settle_example = rows_settle 7 crossed settled (omega arith) (omega arith) refl tt

late_after_reset_example :
    (run init (late 7 second second [] accents [] 1 2 3)).rows 7
    ≡ some (record {
      health = is_cooling;
      cooldown_until = some (2 + second);
      last_error = truncate accents 500;
    })
late_after_reset_example = late_after_reset 7 second second [] accents [] 1 2 3
