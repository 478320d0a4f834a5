-- ===== src/Restore.antt =====
-- `ApplyPending` of internal/backup/backup.go: a staged restore is swapped into place, and an interruption
-- leaves the file system between two of its renames.
pub mod Resumed
mod Tests
use yzapi.Base.{
  ℕ, zero, suc, Bool, true, false, ◌&&◌, Option, none, some, List, [], ◌∷◌, if◌then◌else◌,
}

-- One of data/db, data/journal and data/security: what stands for it in the staging area, in place, and in
-- the directory of this restore that keeps the old data. A number stands for the contents.
pub record Dir : Type 0 where
  pub staged : Option ℕ
  pub live : Option ℕ
  pub aside : Option ℕ

-- the data directory; `recorded` is the name that `asideDir` writes before the first rename, `pending` the
-- marker
pub record Files : Type 0 where
  pub db : Dir
  pub journal : Dir
  pub security : Dir
  pub recorded : Bool
  pub pending : Bool

-- `cut` is an interruption, or an operation that fails
pub data RestoreEnd : Type 0 where
  nothing applied cut incomplete : RestoreEnd

-- os.Rename(src, cur)
abbrev pub move_in : ℕ → Option ℕ → Option ℕ → ℕ → Dir × Option ℕ
move_in new live aside zero = (record { staged = some new; live = live; aside = aside }, none)
move_in new live aside (suc k) = (record { staged = none; live = some new; aside = aside }, some k)

-- os.Rename(cur, keep) first, where there is something in place
abbrev pub move_out : ℕ → Option ℕ → Option ℕ → ℕ → Dir × Option ℕ
move_out new none aside k = move_in new none aside k
move_out new (some old) aside zero =
    (record { staged = some new; live = some old; aside = aside }, none)
move_out new (some old) aside (suc k) = move_in new none (some old) k

abbrev pub swap_in : Option ℕ → Dir → ℕ → Dir × Option ℕ
swap_in none d k = (d, some k)
swap_in (some new) d k = move_out new d.live d.aside k

-- the loop's body for one directory, with the number of operations that are left before the interruption;
-- no number is left when it comes
unfoldable pub install : Dir → ℕ → Dir × Option ℕ
install d k = swap_in d.staged d k

module _ (has_database has_key : ℕ → Bool) where
  abbrev pub has : (ℕ → Bool) → Option ℕ → Bool
  has p none = false
  has p (some c) = p c

  abbrev pub unmark : Files → ℕ → Files × RestoreEnd
  unmark f zero = (f, cut)
  unmark f (suc k) = (record f { pending = false }, applied)

  -- the files that must be there, and the removal of the marker
  abbrev pub check_files : Files → ℕ → Files × RestoreEnd
  check_files f k =
      if has has_database f.db.live && has has_key f.security.live
      then unmark f k
      else (f, incomplete)

  abbrev pub after_security : Files → Dir × Option ℕ → Files × RestoreEnd
  after_security f (d, none) = (record f { security = d }, cut)
  after_security f (d, some k) = check_files (record f { security = d }) k

  abbrev pub after_journal : Files → Dir × Option ℕ → Files × RestoreEnd
  after_journal f (d, none) = (record f { journal = d }, cut)
  after_journal f (d, some k) = after_security (record f { journal = d }) (install f.security k)

  abbrev pub after_db : Files → Dir × Option ℕ → Files × RestoreEnd
  after_db f (d, none) = (record f { db = d }, cut)
  after_db f (d, some k) = after_journal (record f { db = d }) (install f.journal k)

  -- `asideDir` records the name once
  abbrev pub with_name : Bool → Files → ℕ → Files × RestoreEnd
  with_name true f k = after_db f (install f.db k)
  with_name false f zero = (f, cut)
  with_name false f (suc k) = after_db (record f { recorded = true }) (install f.db k)

  -- `ApplyPending`, interrupted after a number of operations
  unfoldable pub apply_pending : Files → ℕ → Files × RestoreEnd
  unfolding install
  apply_pending f k = if f.pending then with_name f.recorded f k else (f, nothing)

  -- starts of the program, each with its interruption
  unfoldable pub starts : Files → List ℕ → Files
  unfolding apply_pending
  starts f [] = f
  starts f (k ∷ ks) = starts (apply_pending f k).0 ks
