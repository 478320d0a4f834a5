-- ===== src/Health/Persist/Resurrected.antt =====
-- A reset of internal/gateway/health.go lets a late write overwrite a newer one: the new record of
-- the account starts again at sequence 0, below the number of the write that is still to land.
use yzapi.Base.{ℕ, ◌+◌, ◌≡◌, some, List, [], ◌∷◌, arith}
use yzapi.Health.Truncate.{Bytes, truncate}
use yzapi.Health.{is_cooling, fail_for, reset}
use yzapi.Health.Persist.{Act, fails_for, resets, lands, landed, act, run, init}
use yzapi.Base.Pick.{pick}

-- Two failures, a reset, a third failure; the write of the third lands, then that of the second.
abbrev pub late : ℕ → ℕ → ℕ → Bytes → Bytes → Bytes → ℕ → ℕ → ℕ → List Act
late id d e a b c t u v =
    fails_for id d a t
    ∷ fails_for id d b u
    ∷ resets id
    ∷ fails_for id e c v
    ∷ lands 0
    ∷ lands 0
    ∷ []

-- After a reset, the write of an old failure that lands late overwrites that of a newer failure:
-- the row then holds the old failure's cooldown and text, for every account, cooldowns, texts and
-- times.
pub late_after_reset :
    (id d e : ℕ) (a b c : Bytes) (t u v : ℕ)
    → (run init (late id d e a b c t u v)).rows id
      ≡ some (record {
        health = is_cooling;
        cooldown_until = some (u + d);
        last_error = truncate b 500;
      })
unfolding run act pick landed fail_for reset
late_after_reset id d e a b c t u v = ground arith
