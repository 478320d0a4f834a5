-- ===== src/Restore/Tests.antt =====
-- A restore of internal/backup/backup.go over data of which there is no journal, with three interruptions.
use yzapi.Base.{ℕ, ◌≡◌, refl, true, false, none, some, List, [], ◌∷◌, ◌==◌, arith, Bool}
use yzapi.Restore.{Files, apply_pending, starts, install}
use yzapi.Restore.Resumed.{IsSafe, IsRestored, apply_pending-starts}

abbrev staged_files : Files
staged_files = record {
  db = record { staged = some 11; live = some 1; aside = none };
  journal = record { staged = some 12; live = none; aside = none };
  security = record { staged = some 13; live = some 3; aside = none };
  recorded = false;
  pending = true;
}

abbrev is : ℕ → ℕ → Bool
is n c = c == n

-- after one operation, two more and none
abbrev cuts : List ℕ
cuts = 1 ∷ 2 ∷ 0 ∷ []

after_cuts :
    (starts (is 11) (is 13) staged_files cuts).db
    ≡ record { staged = none; live = some 11; aside = some 1 }
unfolding starts install
after_cuts = refl

apply_pending-starts_example :
    IsSafe 11 12 13 (some 1) none (some 3) (starts (is 11) (is 13) staged_files cuts)
    × IsRestored 11 12 13
        (some 1)
        none
        (some 3)
        (apply_pending (is 11) (is 13) (starts (is 11) (is 13) staged_files cuts) 8).0
apply_pending-starts_example =
    apply_pending-starts 11 12 13 (some 1) none (some 3) (is 11) (is 13) refl refl staged_files cuts
      8 refl refl refl refl (omega arith)
