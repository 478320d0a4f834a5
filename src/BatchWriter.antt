-- ===== src/BatchWriter.antt =====
-- `BatchWriter` of internal/logstore/batchwriter.go: the queue, the goroutine that reads it, and callers
-- of `Record`. Each operation of the channel, and each call of the database with what follows it, is
-- one step. `leaves batch` are the rows of `batch` that a call of `CreateInBatches` with it has stored
-- when it fails.
pub mod Rows
pub mod Ended
pub mod Kept
mod Tests
use yzapi.Base.{
  ℕ, suc, ◌+◌, Bool, true, false, List, [], ◌∷◌, ◌++◌, leb, ltb, length, if◌then◌else◌,
}

-- Where the goroutine `loop` stands: at its `select`, in the loop after `stop`, in `flush` before
-- attempt `attempt`, or at its end. `last` says that `flush` was called after `stop`.
pub data Place : Type 0 where
  selecting draining finished : Place
  flushing : (attempt : ℕ) → (last : Bool) → Place

-- `BatchWriter`, with the variable `batch` of `loop` and the rows that are in the database
pub record Writer {ℓ} (Row : Type ℓ) : Type ℓ where
  pub capacity : ℕ
  pub queue : List Row
  pub batch : List Row
  pub written : List Row
  pub dropped : ℕ
  pub place : Place

-- A step: a call of `Record`, the goroutine's next case, or an attempt that ends.
pub data Act {ℓ} (Row : Type ℓ) : Type ℓ where
  records : Row → Act Row
  receives ticks stops : Act Row
  tries : (ok : Bool) → Act Row

-- where `flush` returns to
abbrev pub after_flush : Bool → Place
after_flush true = finished
after_flush false = selecting

module _ {ℓ} {Row : Type ℓ} where
  -- `NewBatchWriter`
  abbrev pub new_writer : ℕ → Writer Row
  new_writer capacity = record {
    capacity = capacity;
    queue = [];
    batch = [];
    written = [];
    dropped = 0;
    place = selecting;
  }

  -- `Record`
  unfoldable pub enqueue : Row → Writer Row → Writer Row
  enqueue row w =
      if ltb (length w.queue) w.capacity
      then record w { queue = w.queue ++ (row ∷ []) }
      else record w { dropped = suc w.dropped }

  -- the call of `flush`, up to its first attempt; an empty batch is no work
  abbrev pub place_after : Bool → List Row → Place
  place_after last [] = after_flush last
  place_after last (row ∷ rows) = flushing 0 last

  unfoldable pub flush : Bool → Writer Row → Writer Row
  flush last w = record w { place = place_after last w.batch }

  -- `case r := <-w.ch` of the outer `select`
  unfoldable pub take_row : Row → List Row → Writer Row → Writer Row
  unfolding flush
  take_row row rest w =
      let out = record w { queue = rest; batch = w.batch ++ (row ∷ []) } in
      if leb 128 (length out.batch) then flush false out else out

module _ {ℓ} {Row : Type ℓ} (leaves : List Row → List Row) where
  -- an attempt, and what follows it
  unfoldable pub attempt : Bool → ℕ → Bool → Writer Row → Writer Row
  attempt ok k last w =
      if ok
      then record w { written = w.written ++ w.batch; batch = []; place = after_flush last }
      else if ltb (suc k) 5
      then record w { written = w.written ++ leaves w.batch; place = flushing (suc k) last }
      else record w {
        written = w.written ++ leaves w.batch;
        dropped = w.dropped + length w.batch;
        batch = [];
        place = after_flush last;
      }

  -- the goroutine at its `select`s and its attempts; it cannot do what its place does not allow
  unfoldable pub step_loop : Act Row → Place → List Row → Writer Row → Writer Row
  unfolding take_row flush attempt
  step_loop receives selecting (row ∷ rest) w = take_row row rest w
  step_loop receives draining (row ∷ rest) w = record w {
    queue = rest;
    batch = w.batch ++ (row ∷ []);
  }
  step_loop receives draining [] w = flush true w
  step_loop ticks selecting queue w = flush false w
  step_loop stops selecting queue w = record w { place = draining }
  step_loop (tries ok) (flushing k last) queue w = attempt ok k last w
  step_loop act place queue w = w

  unfoldable pub step : Act Row → Writer Row → Writer Row
  unfolding enqueue step_loop
  step (records row) w = enqueue row w
  step act w = step_loop act w.place w.queue w

  unfoldable pub run : List (Act Row) → Writer Row → Writer Row
  unfolding step
  run [] w = w
  run (act ∷ acts) w = run acts (step act w)
