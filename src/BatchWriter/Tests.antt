-- ===== src/BatchWriter/Tests.antt =====
-- Rows through internal/logstore/batchwriter.go: one too many for the queue, and a database that fails
-- once.
use yzapi.Base.{ℕ, ◌≡◌, refl, true, false, List, [], ◌∷◌}
use yzapi.BatchWriter.{
  finished, new_writer, Act, records, receives, ticks, stops, tries, run, step, enqueue, step_loop,
  take_row, flush, attempt,
}
use yzapi.BatchWriter.Rows.{Kept, recorded}
use yzapi.BatchWriter.Ended.{Ended}
use yzapi.BatchWriter.Kept.{run-Kept}

-- what a failed call of the database leaves
abbrev rolled_back : List ℕ → List ℕ
rolled_back rows = []

abbrev acts : List (Act ℕ)
acts =
    records 1
    ∷ receives
    ∷ records 2
    ∷ records 3
    ∷ records 4
    ∷ ticks
    ∷ tries false
    ∷ tries true
    ∷ stops
    ∷ receives
    ∷ receives
    ∷ receives
    ∷ tries true
    ∷ []

-- Row 4 is dropped.
stored : run rolled_back acts (new_writer 2) ≡ record {
  capacity = 2;
  queue = [];
  batch = [];
  written = 1 ∷ 2 ∷ 3 ∷ [];
  dropped = 1;
  place = finished;
}
unfolding run step enqueue step_loop take_row flush attempt
stored = refl

-- A row that is handed over after the end is neither stored nor counted.
late : run rolled_back (stops ∷ receives ∷ records 1 ∷ []) (new_writer 2) ≡ record {
  capacity = 2;
  queue = 1 ∷ [];
  batch = [];
  written = [];
  dropped = 0;
  place = finished;
}
unfolding run step enqueue step_loop flush
late = refl

run-Kept_example :
    Kept (recorded acts) (run rolled_back acts (new_writer 2))
    × Ended rolled_back 2 acts (run rolled_back acts (new_writer 2))
run-Kept_example = run-Kept rolled_back 2 acts (λ rows. refl)
