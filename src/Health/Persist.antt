-- ===== src/Health/Persist.antt =====
-- The asynchronous writes of internal/gateway/health.go: they land in any order, one at a time.
pub mod Settled
pub mod Runs
pub mod Resurrected
use yzapi.Base.{ℕ, Bool, Option, none, some, List, [], ◌∷◌, ltb, if◌then◌else◌, update}
use yzapi.Base.Pick.{pick}
use yzapi.Health.Truncate.{Bytes}
use yzapi.Health.{Tracker, AccountHealth, Columns, Write, available, fail, fail_for, ok, reset}

-- The tracker, the writes whose goroutines have not run yet, and the rows of the database that
-- they have written. A write to the database is taken to succeed; the code ignores its error.
pub record System : Type 0 where
  pub tracker : Tracker
  pub pending : List Write
  pub rows : ℕ → Option Columns

abbrev pub init : System
init = record { tracker = λ id. none; pending = []; rows = λ id. none }

pub data Act : Type 0 where
  asks : ℕ → ℕ → Act
  fails : ℕ → ℕ → Bytes → ℕ → Act
  fails_for : ℕ → ℕ → Bytes → ℕ → Act
  succeeds : ℕ → Act
  resets : ℕ → Act
  -- the goroutine of the pending write at an index runs
  lands : ℕ → Act

-- `persist` starts a goroutine
abbrev pub queued : Option Write → List Write → List Write
queued none pending = pending
queued (some w) pending = w ∷ pending

-- the goroutine of `persist`, for the record that is there
unfoldable pub land : Write → AccountHealth → System → System
land w s sys = if ltb w.seq s.persisted then sys else record sys {
  tracker = update sys.tracker w.id (some (record s { persisted = w.seq }));
  rows = update sys.rows w.id (some w.columns);
}

unfoldable pub landed : Write → Option AccountHealth → System → System
unfolding land
landed w none sys = sys
landed w (some s) sys = land w s sys

abbrev pub called : System → Tracker × Option Write → System
called sys (h, w) = record sys { tracker = h; pending = queued w sys.pending }

unfoldable pub act : System → Act → System
act sys (asks id now) = record sys { tracker = (available id now sys.tracker).0 }
act sys (fails id base msg now) = called sys (fail id base msg now sys.tracker)
act sys (fails_for id d msg now) = called sys (fail_for id d msg now sys.tracker)
act sys (succeeds id) = called sys (ok id sys.tracker)
act sys (resets id) = record sys { tracker = reset id sys.tracker }
act sys (lands i) = elim (pick i sys.pending) [
  | none ↦ sys
  | some (w, left) ↦ landed w (sys.tracker w.id) (record sys { pending = left })
]

unfoldable pub run : System → List Act → System
run sys [] = sys
run sys (a ∷ rest) = run (act sys a) rest
