-- ===== src/BatchWriter/Ended.antt =====
-- What the goroutine of internal/logstore/batchwriter.go has done with the rows when it ends.
use mathlib.Core.List.{Sublistᴰ}
use mathlib.Core.List.Sublistᴰ.{slnil}
use yzapi.Base.{
  append-nil, append_assoc, ℕ, suc, ◌≡◌, refl, sym, ap, ◌∙◌, subst, inl, inr, Bool, true, false,
  Bool-cases, List, [], ◌∷◌, ◌++◌, leb, ltb, length,
}
use yzapi.BatchWriter.{
  Place, selecting, draining, finished, flushing, place_after, Writer, new_writer, Act, records,
  receives, ticks, stops, tries, enqueue, flush, attempt, take_row, step_loop, step, run,
}
use yzapi.BatchWriter.Rows.{handed, recorded, keep_last, skip_last}

module _ {ℓ} {Row : Type ℓ} (leaves : List Row → List Row) (capacity : ℕ) where
  run-snoc :
      (acts : List (Act Row)) (act : Act Row) (w : Writer Row)
      → run leaves (acts ++ (act ∷ [])) w ≡ step leaves act (run leaves acts w)
  unfolding run
  run-snoc [] act w = refl
  run-snoc (a ∷ acts) act w = run-snoc acts act (step leaves a w)

  recorded-snoc :
      (acts : List (Act Row)) (act : Act Row)
      → recorded (acts ++ (act ∷ [])) ≡ recorded acts ++ handed act
  unfolding recorded
  recorded-snoc [] act = append-nil (handed act)
  recorded-snoc (a ∷ acts) act =
      ap (λ l. handed a ++ l) (recorded-snoc acts act)
      ∙ sym (append_assoc (handed a) (recorded acts) (handed act))

  -- At some moment of `acts` the goroutine, told to stop, found the queue empty, and the rows of `queue`
  -- were handed over after it.
  abbrev pub Drained : List (Act Row) → List Row → Type ℓ
  Drained acts queue =
      (before : List (Act Row)) × (after : List (Act Row)) × (acts ≡ before ++ after)
      × ((run leaves before (new_writer capacity)).place ≡ draining)
      × ((run leaves before (new_writer capacity)).queue ≡ [])
      × Sublistᴰ queue (recorded after)

  -- In the last `flush` the queue is drained, and at the end the batch is empty, too.
  abbrev pub EndedAt : Place → List Row → List Row → List (Act Row) → Type ℓ
  EndedAt selecting batch queue acts = Unit {ℓ}
  EndedAt draining batch queue acts = Unit {ℓ}
  EndedAt (flushing k false) batch queue acts = Unit {ℓ}
  EndedAt (flushing k true) batch queue acts = Drained acts queue
  EndedAt finished batch queue acts = (batch ≡ []) × Drained acts queue

  abbrev pub Ended : List (Act Row) → Writer Row → Type ℓ
  Ended acts w = EndedAt w.place w.batch w.queue acts

  Drained-later :
      (acts : List (Act Row)) (act : Act Row) (queue queue' : List Row)
      → ((rows : List Row) → Sublistᴰ queue rows → Sublistᴰ queue' (rows ++ handed act))
      → Drained acts queue
      → Drained (acts ++ (act ∷ [])) queue'
  Drained-later acts act queue queue' grow (before, after, split, place, empty, sub) = (
    before,
    after ++ (act ∷ []),
    ap (λ l. l ++ (act ∷ [])) split ∙ append_assoc before after (act ∷ []),
    place,
    empty,
    subst (Sublistᴰ queue') (sym (recorded-snoc after act)) (grow (recorded after) sub),
  )

  EndedAt-later :
      (acts : List (Act Row)) (act : Act Row) (place : Place) (batch queue queue' : List Row)
      → ((rows : List Row) → Sublistᴰ queue rows → Sublistᴰ queue' (rows ++ handed act))
      → EndedAt place batch queue acts
      → EndedAt place batch queue' (acts ++ (act ∷ []))
  EndedAt-later acts act selecting batch queue queue' grow ended = tt
  EndedAt-later acts act draining batch queue queue' grow ended = tt
  EndedAt-later acts act (flushing k false) batch queue queue' grow ended = tt
  EndedAt-later acts act (flushing k true) batch queue queue' grow ended =
      Drained-later acts act queue queue' grow ended
  EndedAt-later acts act finished batch queue queue' grow ended =
      (ended.0, Drained-later acts act queue queue' grow ended.1)

  enqueue-Ended :
      (acts : List (Act Row)) (row : Row) (w : Writer Row)
      → Ended acts w
      → Ended (acts ++ (records row ∷ [])) (enqueue row w)
  unfolding enqueue
  enqueue-Ended acts row w ended = elim (Bool-cases (ltb (length w.queue) w.capacity)) [
    | inl e ↦ rw e (
        EndedAt-later acts (records row) w.place w.batch w.queue (w.queue ++ (row ∷ []))
          (λ rows sub. keep_last w.queue rows row sub) ended)
    | inr e ↦ rw e (
        EndedAt-later acts (records row) w.place w.batch w.queue w.queue
          (λ rows sub. skip_last w.queue rows row sub) ended)
  ]

  -- A `flush` while the writer runs ends nothing.
  running-Ended :
      (batch queue : List Row) (acts : List (Act Row))
      → EndedAt (place_after false batch) batch queue acts
  running-Ended [] queue acts = tt
  running-Ended (row ∷ batch) queue acts = tt

  closing-Ended :
      (batch queue : List Row) (acts : List (Act Row))
      → Drained acts queue
      → EndedAt (place_after true batch) batch queue acts
  closing-Ended [] queue acts drained = (refl, drained)
  closing-Ended (row ∷ batch) queue acts drained = drained

  -- A step that hands over no row leaves the rows of the queue those that came late.
  kept-Ended :
      (acts : List (Act Row)) (act : Act Row) (w : Writer Row)
      → handed act ≡ []
      → Ended acts w
      → Ended (acts ++ (act ∷ [])) w
  kept-Ended acts act w quiet ended =
      EndedAt-later acts act w.place w.batch w.queue w.queue
        (λ rows sub.
          subst (λ l. Sublistᴰ w.queue (rows ++ l)) (sym quiet)
            (subst (Sublistᴰ w.queue) (sym (append-nil rows)) sub))
        ended

  take_row-Ended :
      (acts : List (Act Row)) (row : Row) (rest : List Row) (w : Writer Row)
      → w.place ≡ selecting
      → Ended acts (take_row row rest w)
  unfolding take_row flush
  take_row-Ended acts row rest w p = elim (Bool-cases (leb 128 (length (w.batch ++ row ∷ [])))) [
    | inl full ↦ rw full (running-Ended (w.batch ++ row ∷ []) rest acts)
    | inr more ↦ rw (more, p) tt
  ]

  -- after an attempt of the last `flush`, whatever its result
  attempt-Ended :
      (acts : List (Act Row)) (ok : Bool) (k : ℕ) (last : Bool) (w : Writer Row)
      → EndedAt (flushing k last) w.batch w.queue acts
      → Ended acts (attempt leaves ok k last w)
  unfolding attempt
  attempt-Ended acts true k true w drained = (refl, drained)
  attempt-Ended acts true k false w running = tt
  attempt-Ended acts false k true w drained = elim (Bool-cases (ltb (suc k) 5)) [
    | inl again ↦ rw again drained
    | inr over ↦ rw over (refl, drained)
  ]
  attempt-Ended acts false k false w running = elim (Bool-cases (ltb (suc k) 5)) [
    | inl again ↦ rw again tt
    | inr over ↦ rw over tt
  ]

  module _ (acts : List (Act Row)) where
    abbrev now : Writer Row
    now = run leaves acts (new_writer capacity)

    receives-Ended :
        (place : Place) (queue : List Row)
        → place ≡ now.place
        → queue ≡ now.queue
        → Ended acts now
        → Ended (acts ++ (receives ∷ [])) (step_loop leaves receives place queue now)
    unfolding step_loop flush recorded
    receives-Ended selecting (row ∷ rest) p q ended =
        take_row-Ended (acts ++ (receives ∷ [])) row rest now (sym p)
    receives-Ended selecting [] p q ended = kept-Ended acts receives now refl ended
    receives-Ended draining (row ∷ rest) p q ended = rw (sym p) tt
    receives-Ended draining [] p q ended =
        closing-Ended now.batch now.queue (acts ++ (receives ∷ []))
          (acts, receives ∷ [], refl, sym p, sym q, subst (λ l. Sublistᴰ l []) q slnil)
    receives-Ended finished queue p q ended = kept-Ended acts receives now refl ended
    receives-Ended (flushing k last) queue p q ended = kept-Ended acts receives now refl ended

    tries-Ended :
        (ok : Bool) (place : Place)
        → place ≡ now.place
        → Ended acts now
        → Ended (acts ++ (tries ok ∷ [])) (step_loop leaves (tries ok) place now.queue now)
    unfolding step_loop
    tries-Ended ok (flushing k last) p ended =
        attempt-Ended (acts ++ (tries ok ∷ [])) ok k last now (
          subst (λ x. EndedAt x now.batch now.queue (acts ++ (tries ok ∷ []))) (sym p)
            (kept-Ended acts (tries ok) now refl ended))
    tries-Ended ok selecting p ended = kept-Ended acts (tries ok) now refl ended
    tries-Ended ok draining p ended = kept-Ended acts (tries ok) now refl ended
    tries-Ended ok finished p ended = kept-Ended acts (tries ok) now refl ended

    signals-Ended :
        (place : Place)
        → Ended acts now
        → Ended (acts ++ (ticks ∷ [])) (step_loop leaves ticks place now.queue now)
          × Ended (acts ++ (stops ∷ [])) (step_loop leaves stops place now.queue now)
    unfolding step_loop flush
    signals-Ended selecting ended = (running-Ended now.batch now.queue (acts ++ (ticks ∷ [])), tt)
    signals-Ended draining ended =
        (kept-Ended acts ticks now refl ended, kept-Ended acts stops now refl ended)
    signals-Ended finished ended =
        (kept-Ended acts ticks now refl ended, kept-Ended acts stops now refl ended)
    signals-Ended (flushing k last) ended =
        (kept-Ended acts ticks now refl ended, kept-Ended acts stops now refl ended)

    step-Ended : (act : Act Row) → Ended acts now → Ended (acts ++ (act ∷ [])) (step leaves act now)
    unfolding step
    step-Ended (records row) ended = enqueue-Ended acts row now ended
    step-Ended receives ended = receives-Ended now.place now.queue refl refl ended
    step-Ended ticks ended = (signals-Ended now.place ended).0
    step-Ended stops ended = (signals-Ended now.place ended).1
    step-Ended (tries ok) ended = tries-Ended ok now.place refl ended

  ends :
      (acts more : List (Act Row))
      → Ended acts (run leaves acts (new_writer capacity))
      → Ended (acts ++ more) (run leaves (acts ++ more) (new_writer capacity))
  ends acts [] ended =
      subst (λ l. Ended l (run leaves l (new_writer capacity))) (sym (append-nil acts)) ended
  ends acts (act ∷ more) ended =
      subst (λ l. Ended l (run leaves l (new_writer capacity))) (append_assoc acts (act ∷ []) more)
        (ends (acts ++ (act ∷ [])) more (
          subst (Ended (acts ++ (act ∷ []))) (sym (run-snoc acts act (new_writer capacity)))
            (step-Ended acts act ended)))

  pub run-Ended : (acts : List (Act Row)) → Ended acts (run leaves acts (new_writer capacity))
  unfolding run
  run-Ended acts = ends [] acts tt
