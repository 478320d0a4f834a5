-- ===== src/BatchWriter/Rows.antt =====
-- The rows of internal/logstore/batchwriter.go, step by step.
use mathlib.Core.List.{Sublistᴰ}
use mathlib.Core.List.Sublistᴰ.{slnil, cons, cons-cons}
use mathlib.Core.List.Sublistᴰ as Sublists
use yzapi.Base.{
  append-nil, append_assoc, ℕ, suc, ◌+◌, ◌≤◌, ◌≡◌, refl, sym, ap, ◌∙◌, subst, inl, inr, Bool, true,
  false, Bool-cases, List, [], ◌∷◌, ◌++◌, leb, ltb, length, length-append, arith,
}
use yzapi.BatchWriter.{
  Place, selecting, draining, finished, flushing, Writer, Act, records, receives, ticks, stops,
  tries, enqueue, flush, attempt, take_row, step_loop, step, run,
}

module _ {ℓ} {Row : Type ℓ} where
  pub keep_last : (a b : List Row) (x : Row) → Sublistᴰ a b → Sublistᴰ (a ++ x ∷ []) (b ++ x ∷ [])
  keep_last [] [] x slnil = cons-cons refl slnil
  keep_last (y ∷ a) [] x s = elim s [ ]
  keep_last a (y ∷ b) x (cons s) = cons (keep_last a b x s)
  keep_last (y ∷ a) (z ∷ b) x (cons-cons e s) = cons-cons e (keep_last a b x s)

  pub skip_last : (a b : List Row) (x : Row) → Sublistᴰ a b → Sublistᴰ a (b ++ x ∷ [])
  skip_last [] [] x slnil = cons slnil
  skip_last (y ∷ a) [] x s = elim s [ ]
  skip_last a (y ∷ b) x (cons s) = cons (skip_last a b x s)
  skip_last (y ∷ a) (z ∷ b) x (cons-cons e s) = cons-cons e (skip_last a b x s)

  same : (a : List Row) → Sublistᴰ a a
  same [] = slnil
  same (x ∷ a) = cons-cons refl (same a)

  without_middle : (w b q : List Row) → Sublistᴰ (w ++ q) (w ++ (b ++ q))
  without_middle [] [] q = same q
  without_middle [] (x ∷ b) q = cons (without_middle [] b q)
  without_middle (x ∷ w) b q = cons-cons refl (without_middle w b q)

  -- the rows that are held or stored, in the order of their arrival
  abbrev pub held : Writer Row → List Row
  held w = w.written ++ (w.batch ++ w.queue)

  -- `rows` are those that were handed over. What is held or stored is among them in their order, the
  -- others are counted, and the queue keeps to its capacity.
  abbrev pub Kept : List Row → Writer Row → Type ℓ
  Kept rows w =
      Sublistᴰ (held w) rows
      × (length rows ≡ length w.written + length w.batch + length w.queue + w.dropped)
      × (length w.queue ≤ w.capacity)

  enqueue-Kept :
      (rows : List Row) (row : Row) (w : Writer Row)
      → Kept rows w
      → Kept (rows ++ row ∷ []) (enqueue row w)
  unfolding enqueue
  enqueue-Kept rows row w (sub, count, room) =
      let more = length-append rows (row ∷ []) in
      let longer = length-append w.queue (row ∷ []) in
      elim (Bool-cases (ltb (length w.queue) w.capacity)) [
        | inl e ↦ rw e (
          subst (λ l. Sublistᴰ l (rows ++ row ∷ []))
              (append_assoc w.written (w.batch ++ w.queue) (row ∷ [])
                ∙ ap (λ l. w.written ++ l) (append_assoc w.batch w.queue (row ∷ [])))
              (keep_last (held w) rows row sub),
          omega arith,
          ground arith,
        )
        | inr e ↦ rw e (skip_last (held w) rows row sub, omega arith, room)
      ]

  flush-Kept :
      (rows : List Row) (last : Bool) (w : Writer Row) → Kept rows w → Kept rows (flush last w)
  unfolding flush
  flush-Kept rows last w k = k

  -- a row that goes from the queue to the batch
  moved-Kept :
      (rows rest : List Row) (row : Row) (w : Writer Row)
      → row ∷ rest ≡ w.queue
      → Kept rows w
      → Kept rows (record w { queue = rest; batch = w.batch ++ row ∷ [] })
  moved-Kept rows rest row w e (sub, count, room) =
      let total = length-append w.batch (row ∷ []) in
      let fewer : suc (length rest) ≡ length w.queue = ap length e in
      (
        subst (λ l. Sublistᴰ l rows)
            (ap (λ q. w.written ++ (w.batch ++ q)) (sym e)
              ∙ ap (λ l. w.written ++ l) (sym (append_assoc w.batch (row ∷ []) rest)))
            sub,
        omega arith,
        omega arith,
      )

  take_row-Kept :
      (rows rest : List Row) (row : Row) (w : Writer Row)
      → row ∷ rest ≡ w.queue
      → Kept rows w
      → Kept rows (take_row row rest w)
  unfolding take_row flush
  take_row-Kept rows rest row w e k = elim (Bool-cases (leb 128 (length (w.batch ++ row ∷ [])))) [
    | inl full ↦ rw full (moved-Kept rows rest row w e k)
    | inr more ↦ rw more (moved-Kept rows rest row w e k)
  ]

  -- the rows that one step, and that a run, hands over
  abbrev pub handed : Act Row → List Row
  handed (records row) = row ∷ []
  handed act = []

  unfoldable pub recorded : List (Act Row) → List Row
  recorded [] = []
  recorded (act ∷ acts) = handed act ++ recorded acts

-- A call of `CreateInBatches` that fails leaves nothing, as it is one transaction.
module _ {ℓ} {Row : Type ℓ} (leaves : List Row → List Row)
    (atomic : (rows : List Row) → leaves rows ≡ []) where
  attempt-Kept :
      (rows : List Row) (ok : Bool) (n : ℕ) (last : Bool) (w : Writer Row)
      → Kept rows w
      → Kept rows (attempt leaves ok n last w)
  unfolding attempt
  attempt-Kept rows true n last w (sub, count, room) =
      let total = length-append w.written w.batch in
      (
        subst (λ l. Sublistᴰ l rows) (sym (append_assoc w.written w.batch w.queue)) sub,
        omega arith,
        room,
      )
  attempt-Kept rows false n last w (sub, count, room) = elim (Bool-cases (ltb (suc n) 5)) [
    | inl e ↦ rw (e, atomic, append-nil w.written) (sub, count, room)
    | inr e ↦
        rw (e, atomic, append-nil w.written)
          (Sublists.trans (without_middle w.written w.batch w.queue) sub, omega arith, room)
  ]

  step_loop-Kept :
      (rows queue : List Row) (act : Act Row) (place : Place) (w : Writer Row)
      → queue ≡ w.queue
      → Kept rows w
      → Kept rows (step_loop leaves act place queue w)
  unfolding step_loop
  step_loop-Kept rows (row ∷ rest) receives selecting w e k = take_row-Kept rows rest row w e k
  step_loop-Kept rows [] receives selecting w e k = k
  step_loop-Kept rows (row ∷ rest) receives draining w e k = moved-Kept rows rest row w e k
  step_loop-Kept rows [] receives draining w e k = flush-Kept rows true w k
  step_loop-Kept rows queue receives finished w e k = k
  step_loop-Kept rows queue receives (flushing n last) w e k = k
  step_loop-Kept rows queue ticks selecting w e k = flush-Kept rows false w k
  step_loop-Kept rows queue ticks draining w e k = k
  step_loop-Kept rows queue ticks finished w e k = k
  step_loop-Kept rows queue ticks (flushing n last) w e k = k
  step_loop-Kept rows queue stops selecting w e k = k
  step_loop-Kept rows queue stops draining w e k = k
  step_loop-Kept rows queue stops finished w e k = k
  step_loop-Kept rows queue stops (flushing n last) w e k = k
  step_loop-Kept rows queue (tries ok) selecting w e k = k
  step_loop-Kept rows queue (tries ok) draining w e k = k
  step_loop-Kept rows queue (tries ok) finished w e k = k
  step_loop-Kept rows queue (tries ok) (flushing n last) w e k = attempt-Kept rows ok n last w k
  step_loop-Kept rows queue (records row) place w e k = k

  step-Kept :
      (rows : List Row) (act : Act Row) (w : Writer Row)
      → Kept rows w
      → Kept (rows ++ handed act) (step leaves act w)
  unfolding step
  step-Kept rows (records row) w k = enqueue-Kept rows row w k
  step-Kept rows receives w k =
      subst (λ l. Kept l (step leaves receives w)) (sym (append-nil rows))
        (step_loop-Kept rows w.queue receives w.place w refl k)
  step-Kept rows ticks w k =
      subst (λ l. Kept l (step leaves ticks w)) (sym (append-nil rows))
        (step_loop-Kept rows w.queue ticks w.place w refl k)
  step-Kept rows stops w k =
      subst (λ l. Kept l (step leaves stops w)) (sym (append-nil rows))
        (step_loop-Kept rows w.queue stops w.place w refl k)
  step-Kept rows (tries ok) w k =
      subst (λ l. Kept l (step leaves (tries ok) w)) (sym (append-nil rows))
        (step_loop-Kept rows w.queue (tries ok) w.place w refl k)

  pub run_keeps :
      (acts : List (Act Row)) (rows : List Row) (w : Writer Row)
      → Kept rows w
      → Kept (rows ++ recorded acts) (run leaves acts w)
  unfolding run recorded
  run_keeps [] rows w k = subst (λ l. Kept l w) (sym (append-nil rows)) k
  run_keeps (act ∷ acts) rows w k =
      subst (λ l. Kept l (run leaves acts (step leaves act w)))
        (append_assoc rows (handed act) (recorded acts))
        (run_keeps acts (rows ++ handed act) (step leaves act w) (step-Kept rows act w k))
