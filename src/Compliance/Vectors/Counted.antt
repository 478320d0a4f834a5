-- ===== src/Compliance/Vectors/Counted.antt =====
-- The counts of `BuildVectors` of internal/compliance/compliance.go.
use Prim.Native.String.{String}
use yzapi.Base.{
  ℕ, zero, suc, ◌+◌, ◌-◌, ◌≤◌, ◌≡◌, refl, sym, ◌⊎◌, inl, inr, true, Option, none, some, List, [],
  ◌∷◌, ◌==◌, if◌then◌else◌, length, take, Bool-cases, Result, ok, err, arith, map, subst,
}
use yzapi.Health.Truncate.{Bytes}
use yzapi.Compliance.Check.{is_nil}
use yzapi.Compliance.Vectors.{
  BuildRow, Counts, BuildError, Answers, total, all_failed, rows_after, build_batch_size,
  embed_batch, input_of, write_batch, build_batches, build_vectors, after_read, after_claim,
  configured, no_counts, conserve, one_built, one_failed, embedding, wrong_number,
}

rows_split :
    (n : ℕ) (rows : List BuildRow) → length (take n rows) + length (rows_after n rows) ≡ length rows
rows_split zero rows = omega arith
rows_split (suc n) [] = omega arith
rows_split (suc n) (r ∷ rows) = omega (arith, rows_split n rows)

Result-cases : {E A : Type 0} (r : Result E A) → ((e : E) × (r ≡ err e)) ⊎ ((x : A) × (r ≡ ok x))
Result-cases (err e) = inl (e, refl)
Result-cases (ok x) = inr (x, refl)

module _ (trim : Bytes → Bytes) (a : Answers) where
  -- the counts after one row
  abbrev next : BuildRow → List ℕ → String → Counts → Counts
  next r v stamp c =
      if is_nil v then one_failed c else if a.lands r v stamp then one_built c else one_failed c

  next-total :
      (r : BuildRow) (v : List ℕ) (stamp : String) (c : Counts)
      → total (next r v stamp c) ≡ suc (total c)
  next-total r v stamp c = elim (Bool-cases (is_nil v)) [
    | inl e ↦ rw e (omega arith)
    | inr e ↦ rw e (elim (Bool-cases (a.lands r v stamp)) [
      | inl f ↦ rw f (omega arith)
      | inr f ↦ rw f (omega arith)
    ])
  ]

  write_batch-total :
      (rows : List BuildRow) (vecs : List (List ℕ)) (stamp : String) (c : Counts)
      → total (write_batch trim a rows vecs stamp c) ≡ total c + length rows
  unfolding write_batch
  write_batch-total [] vecs stamp c = omega arith
  write_batch-total (r ∷ rows) [] stamp c =
      omega (arith, write_batch-total rows [] stamp (record c { failed = suc c.failed }))
  write_batch-total (r ∷ rows) (v ∷ vecs) stamp c =
      omega (arith, write_batch-total rows vecs stamp (next r v stamp c), next-total r v stamp c)

  -- all rows are counted, or an error has stopped the loop and no more than all are
  abbrev pub Counted : List BuildRow → Counts → Counts × Option BuildError → Type 0
  Counted rows c r =
      ((r.1 ≡ none) × (total r.0 ≡ total c + length rows))
      ⊎ ((e : BuildError) × (r.1 ≡ some e) × (total r.0 ≤ total c + length rows))

  after_batch :
      (batch : List BuildRow) (vecs : List (List ℕ)) (stamp : String) (rest rows : List BuildRow)
      (c : Counts)
      → length batch + length rest ≡ length rows
      → (r : Counts × Option BuildError) → Counted rest (write_batch trim a batch vecs stamp c) r
      → Counted rows c r
  after_batch batch vecs stamp rest rows c split r (inl (e, f)) =
      inl (e, omega (arith, f, split, write_batch-total batch vecs stamp c))
  after_batch batch vecs stamp rest rows c split r (inr (x, e, f)) =
      inr (x, e, omega (arith, f, split, write_batch-total batch vecs stamp c))

  conserved :
      (n : ℕ) (rows : List BuildRow) (r : Counts × Option BuildError)
      → length rows ≤ n
      → Counted rows (all_failed (n - length rows) no_counts) r
      → total (conserve n r.0) ≡ n
  conserved n rows r le (inl (e, f)) = omega (arith, f, le)
  conserved n rows r le (inr (x, e, f)) = omega (arith, f, le)

  build_batches-Counted :
      (fuel call : ℕ) (rows : List BuildRow) (c : Counts)
      → length rows ≤ fuel
      → Counted rows c (build_batches trim a fuel call rows c)
  unfolding build_batches
  build_batches-Counted zero call [] c enough = inl (refl, omega arith)
  build_batches-Counted zero call (r ∷ rows) c enough = absurd (omega arith)
  build_batches-Counted (suc fuel) call [] c enough = inl (refl, omega arith)
  build_batches-Counted (suc fuel) call (r ∷ rows) c enough =
      let batch = take build_batch_size (r ∷ rows) in
      let rest = rows_after build_batch_size (r ∷ rows) in
      let split = rows_split build_batch_size (r ∷ rows) in
      elim (Result-cases
        (embed_batch a.embed_id a.embed (a.identity call) call (map (input_of trim a) batch))) [
          | inl (e, f) ↦ rw (f, build_batches) (inr (embedding e, refl, omega (arith, split)))
          | inr ((vecs, stamp), f) ↦
              rw (f, build_batches)
                (elim (Bool-cases (length vecs == length batch)) [
                  | inl same ↦
                      rw (same, build_batches)
                        (after_batch batch vecs stamp rest (r ∷ rows) c split
                          (build_batches trim a fuel (suc call) rest
                            (write_batch trim a batch vecs stamp c))
                          (build_batches-Counted fuel (suc call) rest
                            (write_batch trim a batch vecs stamp c) (omega (arith, split, enough))))
                  | inr other ↦
                      rw (other, build_batches) (inr (wrong_number, refl, omega (arith, split)))
                ])
        ]

  -- no more rows are read than were claimed
  abbrev pub Fits : ℕ → Result Bytes (List BuildRow) → Type 0
  Fits n (err e) = Unit
  Fits n (ok rows) = length rows ≤ n

  abbrev pub Looped : ℕ → Result Bytes (List BuildRow) → Type 0
  Looped n (err e) = Unit
  Looped n (ok rows) =
      Counted rows (all_failed (n - length rows) no_counts)
        (build_batches trim a (length rows) 0 rows (all_failed (n - length rows) no_counts))

  after_read-total :
      (n : ℕ) (r : Result Bytes (List BuildRow))
      → Fits n r
      → (total (after_read trim a n r).0 ≡ n) × Looped n r
  after_read-total n (err e) le = (omega arith, tt)
  after_read-total n (ok rows) le =
      let start = all_failed (n - length rows) no_counts in
      let counted = build_batches-Counted (length rows) 0 rows start (omega arith) in
      (conserved n rows (build_batches trim a (length rows) 0 rows start) le counted, counted)

  -- Whatever a build claims is built or failed when it returns, on every path: a failed read, an error of
  -- the embedding service or a wrong number of vectors in any batch, and a failed reload. The service is
  -- configured, and no more rows are read than were claimed. Of the rows that are read, the loop counts
  -- every one itself if no batch stops it, and never more.
  pub build_vectors-total :
      (n : ℕ)
      → configured a.embed a.embed_id ≡ true
      → a.claimed ≡ ok n
      → Fits n a.rows
      → (total (build_vectors trim a).0 ≡ n) × Looped n a.rows
  unfolding build_vectors
  build_vectors-total n set e le = rw set (
      subst (λ r. (total (after_claim trim a r).0 ≡ n) × Looped n a.rows) (sym e)
        (after_read-total n a.rows le))
