-- ===== src/Restore/Resumed.antt =====
-- Interrupted restores of internal/backup/backup.go.
use yzapi.Base.{
  ℕ, zero, suc, ◌+◌, ◌≤◌, ◌≡◌, refl, ◌⊎◌, inl, inr, Bool, true, false, ◌&&◌, Option, none, some,
  List, [], ◌∷◌, if◌then◌else◌, arith, subst, sym, ap,
}
use yzapi.Restore.{
  Dir, Files, RestoreEnd, install, move_in, move_out, apply_pending, starts, after_db,
  after_journal, after_security, with_name, check_files, has, unmark, applied, cut, nothing,
}

-- The new data and the old data of a directory are each in one place: not started, set aside, installed.
abbrev pub IsPhase : ℕ → Option ℕ → Dir → Type 0
IsPhase new old d =
    ((d.staged ≡ some new) × (d.live ≡ old) × (d.aside ≡ none))
    ⊎ ((d.staged ≡ some new) × (d.live ≡ none) × (d.aside ≡ old))
    ⊎ ((d.staged ≡ none) × (d.live ≡ some new) × (d.aside ≡ old))

abbrev pub IsInstalled : ℕ → Option ℕ → Dir → Type 0
IsInstalled new old d = (d.staged ≡ none) × (d.live ≡ some new) × (d.aside ≡ old)

fresh :
    (new : ℕ) (old : Option ℕ) (d : Dir)
    → d ≡ record { staged = some new; live = old; aside = none }
    → IsPhase new old d
fresh new old d e = subst (IsPhase new old) (sym e) (inl (refl, refl, refl))

-- what the body of the loop gives for a directory
abbrev Swapped : ℕ → Option ℕ → ℕ → Dir × Option ℕ → Type 0
Swapped new old k (d, none) = IsPhase new old d × (k ≤ 1)
Swapped new old k (d, some n) = IsInstalled new old d × (k ≤ n + 2)

moved_out : (new : ℕ) (old : Option ℕ) (k : ℕ) → Swapped new old k (move_out new old none k)
moved_out new none zero = (inl (refl, refl, refl), omega arith)
moved_out new none (suc k) = ((refl, refl, refl), omega arith)
moved_out new (some x) zero = (inl (refl, refl, refl), omega arith)
moved_out new (some x) (suc zero) = (inr (inl (refl, refl, refl)), omega arith)
moved_out new (some x) (suc (suc k)) = ((refl, refl, refl), omega arith)

moved_in : (new : ℕ) (old : Option ℕ) (k : ℕ) → Swapped new old k (move_in new none old k)
moved_in new old zero = (inr (inl (refl, refl, refl)), omega arith)
moved_in new old (suc k) = ((refl, refl, refl), omega arith)

install-Swapped :
    (new : ℕ) (old : Option ℕ) (d : Dir) (k : ℕ)
    → IsPhase new old d
    → Swapped new old k (install d k)
unfolding install
install-Swapped new old d k (inl (a, b, c)) = rw a (rw b (rw c (moved_out new old k)))
install-Swapped new old d k (inr (inl (a, b, c))) = rw a (rw b (rw c (moved_in new old k)))
install-Swapped new old d k (inr (inr (a, b, c))) = rw a ((refl, b, c), omega arith)

-- The state of a restore: the contents that were staged, those that were in place, and what is there now
module _ (db journal security : ℕ) (old_db old_journal old_security : Option ℕ) where
  abbrev pub IsSafe : Files → Type 0
  IsSafe f =
      IsPhase db old_db f.db
      × IsPhase journal old_journal f.journal
      × IsPhase security old_security f.security

  abbrev pub IsRestored : Files → Type 0
  IsRestored f =
      IsInstalled db old_db f.db
      × IsInstalled journal old_journal f.journal
      × IsInstalled security old_security f.security
      × (f.pending ≡ false)

  -- the marker goes last
  abbrev IsSound : Files → Type 0
  IsSound f = IsSafe f × ((f.pending ≡ true) ⊎ IsRestored f)

  module _ (has_database has_key : ℕ → Bool) (p : has_database db ≡ true)
      (q : has_key security ≡ true) where
    -- after a run with `k` operations from a pending restore
    abbrev Ran : ℕ → Files × RestoreEnd → Type 0
    Ran k (f, o) =
        IsSafe f × ((IsRestored f × (o ≡ applied)) ⊎ ((f.pending ≡ true) × (o ≡ cut) × (k ≤ 7)))

    check_files_lem :
        (f : Files) (k : ℕ)
        → f.db.live ≡ some db
        → f.security.live ≡ some security
        → check_files has_database has_key f k ≡ unmark has_database has_key f k
    check_files_lem f k a c =
        let found : (has has_database has_key has_database f.db.live
              && has has_database has_key has_key f.security.live)
            ≡ true =
          rw a (rw c (rw p (rw q refl))) in
        rw found refl

    unmark-Ran :
        (f : Files) (k n : ℕ)
        → IsInstalled db old_db f.db
        → IsInstalled journal old_journal f.journal
        → IsInstalled security old_security f.security
        → f.pending ≡ true
        → n ≤ k + 7
        → Ran n (unmark has_database has_key f k)
    unmark-Ran f zero n a b c e le =
        ((inr (inr a), inr (inr b), inr (inr c)), inr (e, refl, omega (arith, le)))
    unmark-Ran f (suc k) n a b c e le =
        ((inr (inr a), inr (inr b), inr (inr c)), inl ((a, b, c, refl), refl))

    after_security-Ran :
        (f : Files) (k n : ℕ) (r : Dir × Option ℕ)
        → IsInstalled db old_db f.db
        → IsInstalled journal old_journal f.journal
        → Swapped security old_security k r
        → f.pending ≡ true
        → n ≤ k + 5
        → Ran n (after_security has_database has_key f r)
    after_security-Ran f k n (d, none) a b (c, few) e le =
        ((inr (inr a), inr (inr b), c), inr (e, refl, omega (arith, le, few)))
    after_security-Ran f k n (d, some m) a b (c, few) e le =
        subst (Ran n) (sym (check_files_lem (record f { security = d }) m a.1 c.1))
          (unmark-Ran (record f { security = d }) m n a b c e (omega (arith, le, few)))

    after_journal-Ran :
        (f : Files) (k n : ℕ) (r : Dir × Option ℕ)
        → IsInstalled db old_db f.db
        → Swapped journal old_journal k r
        → IsPhase security old_security f.security
        → f.pending ≡ true
        → n ≤ k + 3
        → Ran n (after_journal has_database has_key f r)
    after_journal-Ran f k n (d, none) a (b, few) c e le =
        ((inr (inr a), b, c), inr (e, refl, omega (arith, le, few)))
    after_journal-Ran f k n (d, some m) a (b, few) c e le =
        after_security-Ran (record f { journal = d }) m n (install f.security m) a b
          (install-Swapped security old_security f.security m c) e (omega (arith, le, few))

    after_db-Ran :
        (f : Files) (k n : ℕ) (r : Dir × Option ℕ)
        → Swapped db old_db k r
        → IsPhase journal old_journal f.journal
        → IsPhase security old_security f.security
        → f.pending ≡ true
        → n ≤ k + 1
        → Ran n (after_db has_database has_key f r)
    after_db-Ran f k n (d, none) (a, few) b c e le =
        ((a, b, c), inr (e, refl, omega (arith, le, few)))
    after_db-Ran f k n (d, some m) (a, few) b c e le =
        after_journal-Ran (record f { db = d }) m n (install f.journal m) a
          (install-Swapped journal old_journal f.journal m b) c e (omega (arith, le, few))

    with_name-Ran :
        (r : Bool) (f : Files) (k : ℕ)
        → IsSafe f
        → f.pending ≡ true
        → Ran k (with_name has_database has_key r f k)
    with_name-Ran true f k (a, b, c) e =
        after_db-Ran f k k (install f.db k) (install-Swapped db old_db f.db k a) b c e (omega arith)
    with_name-Ran false f zero (a, b, c) e = ((a, b, c), inr (e, refl, omega arith))
    with_name-Ran false f (suc k) (a, b, c) e =
        after_db-Ran (record f { recorded = true }) k (suc k) (install f.db k)
          (install-Swapped db old_db f.db k a) b c e (omega arith)

    run_pending :
        (f : Files) (k : ℕ)
        → f.pending ≡ true
        → apply_pending has_database has_key f k ≡ with_name has_database has_key f.recorded f k
    unfolding apply_pending
    run_pending f k e =
        ap (λ b. if b then with_name has_database has_key f.recorded f k else (f, nothing)) e

    run_done :
        (f : Files) (k : ℕ)
        → f.pending ≡ false
        → apply_pending has_database has_key f k ≡ (f, nothing)
    unfolding apply_pending
    run_done f k e =
        ap (λ b. if b then with_name has_database has_key f.recorded f k else (f, nothing)) e

    -- an interrupted run is sound, and one with enough operations restores
    apply_pending-IsSound :
        (f : Files) (k : ℕ) → IsSound f → IsSound (apply_pending has_database has_key f k).0
    apply_pending-IsSound f k (safe, inl e) =
        let (kept, end) = with_name-Ran f.recorded f k safe e in
        subst (λ r. IsSound r.0) (sym (run_pending f k e))
          (kept, elim end [ inl (done, _) ↦ inr done | inr (still, _, _) ↦ inl still ])
    apply_pending-IsSound f k (safe, inr done) =
        subst (λ r. IsSound r.0) (sym (run_done f k done.3)) (safe, inr done)

    starts-IsSound :
        (f : Files) (ks : List ℕ) → IsSound f → IsSound (starts has_database has_key f ks)
    unfolding starts
    starts-IsSound f [] sound = sound
    starts-IsSound f (k ∷ ks) sound =
        starts-IsSound (apply_pending has_database has_key f k).0 ks
          (apply_pending-IsSound f k sound)

    enough :
        (f : Files) (k : ℕ)
        → 8 ≤ k
        → IsSound f
        → IsRestored (apply_pending has_database has_key f k).0
    enough f k le (safe, inl e) =
        subst (λ r. IsRestored r.0) (sym (run_pending f k e))
          (elim (with_name-Ran f.recorded f k safe e).1 [
            | inl (done, _) ↦ done
            | inr (_, _, few) ↦ absurd (omega (arith, le, few))
          ])
    enough f k le (safe, inr done) = subst (λ r. IsRestored r.0) (sym (run_done f k done.3)) done

    -- However often a restore is interrupted, and wherever, the new and the old contents of each directory
    -- stand whole in one of the three places, and the next start that is not interrupted installs all three,
    -- keeps all the old data aside and removes the marker. The restore is staged as a whole, and the staged
    -- database and key are there; eight operations are enough for a start.
    pub apply_pending-starts :
        (f : Files) (ks : List ℕ) (k : ℕ)
        → f.db ≡ record { staged = some db; live = old_db; aside = none }
        → f.journal ≡ record { staged = some journal; live = old_journal; aside = none }
        → f.security ≡ record { staged = some security; live = old_security; aside = none }
        → f.pending ≡ true
        → 8 ≤ k
        → let g = starts has_database has_key f ks in
          IsSafe g × IsRestored (apply_pending has_database has_key g k).0
    apply_pending-starts f ks k a b c e le =
        let sound = starts-IsSound f ks (
          (
            fresh db old_db f.db a,
            fresh journal old_journal f.journal b,
            fresh security old_security f.security c,
          ),
          inl e,
        ) in
        (sound.0, enough (starts has_database has_key f ks) k le sound)
