-- ===== src/Compliance/Vectors.antt =====
-- `BuildVectors` of internal/compliance/compliance.go. What the database and the embedding service answer
-- is a parameter: the rows that are claimed, those that are read, each batch, and each write.
pub mod Counted
use Prim.Native.String.{String}
use yzapi.Base.{
  ℕ, zero, suc, ◌+◌, ◌-◌, Bool, true, false, Option, none, some, List, [], ◌∷◌, map, ◌==◌,
  if◌then◌else◌, length, take, Result, ok, err,
}
use yzapi.Health.Truncate.{Bytes}
use yzapi.Compliance.Check.{is_nil}

-- `AuditSample`, as far as a build reads it
pub record BuildRow : Type 0 where
  pub id : ℕ
  pub text : Bytes
  pub text_hash : String

pub record Counts : Type 0 where
  pub built : ℕ
  pub failed : ℕ

pub data BuildError : Type 0 where
  not_configured : BuildError
  database : Bytes → BuildError
  embedding : Bytes → BuildError
  wrong_number : BuildError
  index_reload : Bytes → BuildError

-- The answers: of the call of the embedding service with a number, of the identity at that time, and of the
-- update of a row, which lands if the row still has its text and this build's claim
pub record Answers : Type 0 where
  pub claimed : Result Bytes ℕ
  pub rows : Result Bytes (List BuildRow)
  pub identity : ℕ → String
  pub embed : Option (ℕ → List Bytes → Result Bytes (List (List ℕ)))
  pub embed_id : Option (ℕ → List Bytes → Result Bytes (List (List ℕ) × String))
  pub lands : BuildRow → List ℕ → String → Bool
  pub reload_error : Option Bytes

abbrev pub one_built : Counts → Counts
one_built c = record c { built = suc c.built }

abbrev pub one_failed : Counts → Counts
one_failed c = record c { failed = suc c.failed }

abbrev pub all_failed : ℕ → Counts → Counts
all_failed n c = record c { failed = c.failed + n }

abbrev pub total : Counts → ℕ
total c = c.built + c.failed

-- `BuildBatchSize`
abbrev pub build_batch_size : ℕ
build_batch_size = 16

-- the rows after the first `n`
abbrev pub rows_after : ℕ → List BuildRow → List BuildRow
rows_after zero rows = rows
rows_after (suc n) [] = []
rows_after (suc n) (r ∷ rows) = rows_after n rows

abbrev with_stamp : String → Result Bytes (List (List ℕ)) → Result Bytes (List (List ℕ) × String)
with_stamp stamp (err e) = err e
with_stamp stamp (ok vecs) = ok (vecs, stamp)

-- the call of the service for a batch, with the identity that is stamped
abbrev pub embed_batch :
    Option (ℕ → List Bytes → Result Bytes (List (List ℕ) × String))
    → Option (ℕ → List Bytes → Result Bytes (List (List ℕ)))
    → String
    → ℕ
    → List Bytes
    → Result Bytes (List (List ℕ) × String)
embed_batch (some f) g stamp call inputs = f call inputs
embed_batch none (some g) stamp call inputs = with_stamp stamp (g call inputs)
embed_batch none none stamp call inputs = ok ([], stamp)

-- the deferred count of what is left of the claim; where nothing is left, the difference is 0
abbrev pub conserve : ℕ → Counts → Counts
conserve claimed c = all_failed (claimed - c.built - c.failed) c

abbrev pub errors_of : Option BuildError → Option Bytes → List BuildError
errors_of none none = []
errors_of (some e) none = e ∷ []
errors_of none (some r) = index_reload r ∷ []
errors_of (some e) (some r) = e ∷ index_reload r ∷ []

abbrev pub no_counts : Counts
no_counts = record { built = 0; failed = 0 }

abbrev pub configured :
    Option (ℕ → List Bytes → Result Bytes (List (List ℕ)))
    → Option (ℕ → List Bytes → Result Bytes (List (List ℕ) × String))
    → Bool
configured none none = false
configured (some f) g = true
configured none (some g) = true

module _ (trim : Bytes → Bytes) (a : Answers) where
  abbrev pub input_of : BuildRow → Bytes
  input_of r = if is_nil (trim r.text) then 32 ∷ [] else trim r.text

  -- the loop over a batch, which has as many vectors as rows
  unfoldable pub write_batch : List BuildRow → List (List ℕ) → String → Counts → Counts
  write_batch [] vecs stamp c = c
  write_batch (r ∷ rows) [] stamp c = write_batch rows [] stamp (one_failed c)
  write_batch (r ∷ rows) (v ∷ vecs) stamp c =
      let next =
        if is_nil v
        then one_failed c
        else if a.lands r v stamp
        then one_built c
        else one_failed c in
      write_batch rows vecs stamp next

  -- the loop over the batches, on fuel, from the call with a number
  unfoldable pub build_batches : ℕ → ℕ → List BuildRow → Counts → Counts × Option BuildError
  unfolding write_batch
  build_batches zero call rows c = (c, none)
  build_batches (suc fuel) call [] c = (c, none)
  build_batches (suc fuel) call (r ∷ rows) c =
      let batch = take build_batch_size (r ∷ rows) in
      elim (embed_batch a.embed_id a.embed (a.identity call) call (map input_of batch)) [
        | err e ↦ (all_failed (length batch) c, some (embedding e))
        | ok (vecs, stamp) ↦ elim (length vecs == length batch) [
          | true ↦
              build_batches fuel (suc call) (rows_after build_batch_size (r ∷ rows))
                (write_batch batch vecs stamp c)
          | false ↦ (all_failed (length batch) c, some wrong_number)
        ]
      ]

  abbrev pub after_read : ℕ → Result Bytes (List BuildRow) → Counts × List BuildError
  after_read claimed (err e) = (conserve claimed no_counts, database e ∷ [])
  after_read claimed (ok rows) =
      let r = build_batches (length rows) 0 rows (all_failed (claimed - length rows) no_counts) in
      (conserve claimed r.0, errors_of r.1 a.reload_error)

  abbrev pub after_claim : Result Bytes ℕ → Counts × List BuildError
  after_claim (err e) = (no_counts, database e ∷ [])
  after_claim (ok n) = after_read n a.rows

  -- `BuildVectors`
  unfoldable pub build_vectors : Counts × List BuildError
  unfolding build_batches
  build_vectors =
      if configured a.embed a.embed_id
      then after_claim a.claimed
      else (no_counts, not_configured ∷ [])
