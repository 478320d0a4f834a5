-- ===== src/BatchWriter/Kept.antt =====
-- The rows that internal/logstore/batchwriter.go is handed, over every run of the writer.
use mathlib.Core.List.Sublistᴰ.{slnil}
use yzapi.Base.{ℕ, ◌≡◌, refl, List, [], arith}
use yzapi.BatchWriter.{Act, new_writer, run}
use yzapi.BatchWriter.Rows.{Kept, recorded, run_keeps}
use yzapi.BatchWriter.Ended.{Ended, run-Ended}

module _ {ℓ} {Row : Type ℓ} where
  -- However calls of `Record`, the goroutine's steps, and attempts that succeed or fail are interleaved,
  -- if an attempt that fails stores no row, then the rows that are stored, in the batch or in the queue
  -- are rows that were handed over, each once and in their order; every other row is counted as
  -- dropped; and the queue keeps to its capacity. When the goroutine has ended, the batch is empty, and
  -- the rows in the queue, which are neither stored nor counted, were all handed over after the
  -- goroutine, told to stop, had found the queue empty.
  pub run-Kept :
      (leaves : List Row → List Row) (capacity : ℕ) (acts : List (Act Row))
      → ((rows : List Row) → leaves rows ≡ [])
      → Kept (recorded acts) (run leaves acts (new_writer capacity))
        × Ended leaves capacity acts (run leaves acts (new_writer capacity))
  run-Kept leaves capacity acts atomic = (
    run_keeps leaves atomic acts [] (new_writer capacity) (slnil, refl, omega arith),
    run-Ended leaves capacity acts,
  )
