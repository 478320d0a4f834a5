-- ===== src/Limiter/Budget/Conserved.antt =====
-- No byte of the budget of internal/gateway/limiter.go is lost or held twice.
use yzapi.Base.{
  ℕ, zero, suc, ◌+◌, ◌≡◌, inl, inr, Bool, none, some, List, [], ◌∷◌, arith, Option-cases,
}
use yzapi.Base.Int.{ℤ, pos, pos_part}
use yzapi.Base.Pick.{pick}
use yzapi.Limiter.Budget.{Budget, Place, taken, gave_up, waiting, acquire, release, configure}

-- The budget, and the reservations that are held.
pub record Ledger : Type 0 where
  pub budget : Budget
  pub held : List ℤ

pub data Act : Type 0 where
  asks : Bool → ℤ → Act
  returns : ℕ → Act
  configures : ℤ → Act

asked : Ledger → ℤ → Budget × Place → Ledger
asked s n (b, taken) = record { budget = b; held = n ∷ s.held }
asked s n (b, gave_up) = record s { budget = b }
asked s n (b, waiting) = record s { budget = b }

-- A caller that has a reservation returns it once; whoever waits asks again later.
unfoldable pub act : Ledger → Act → Ledger
unfolding asked acquire release configure
act s (asks over n) = asked s n (acquire over n s.budget)
act s (returns i) = elim (pick i s.held) [
  | none ↦ s
  | some (n, left) ↦ record { budget = release n s.budget; held = left }
]
act s (configures limit) = record s { budget = configure limit s.budget }

unfoldable pub run : Ledger → List Act → Ledger
run s [] = s
run s (a ∷ rest) = run (act s a) rest

-- The bytes of the reservations; one that is not positive holds none.
unfoldable pub total : List ℤ → ℕ
total [] = 0
total (n ∷ held) = pos_part n + total held

pub total-pick :
    (i : ℕ) (held : List ℤ) (n : ℤ) (left : List ℤ)
    → pick i held ≡ some (n, left)
    → total held ≡ pos_part n + total left
unfolding total pick
total-pick i [] n left e = cc
total-pick zero (m ∷ rest) n left e = ground arith
total-pick (suc i) (m ∷ rest) n left e = elim (Option-cases (pick i rest)) [
  | inl nothing ↦ ground arith
  | inr ((k, others), found) ↦ ground (arith, total-pick i rest k others found)
]

abbrev pub Balanced : Ledger → Type 0
Balanced s = s.budget.used ≡ pos (total s.held)

pub act-Balanced : (s : Ledger) (a : Act) → Balanced s → Balanced (act s a)
unfolding act total
act-Balanced s (asks over n) v = ground arith
act-Balanced s (returns i) v = elim (Option-cases (pick i s.held)) [
  | inl nothing ↦ rw (nothing, act) v
  | inr ((n, left), found) ↦ rw (found, act) (ground (arith, total-pick i s.held n left found))
]
act-Balanced s (configures limit) v = v

-- However requests come and go, and whatever the limit is set to, the budget counts exactly the
-- bytes of the reservations that are held.
pub run-Balanced : (s : Ledger) (acts : List Act) → Balanced s → Balanced (run s acts)
unfolding run
run-Balanced s [] v = v
run-Balanced s (a ∷ rest) v = run-Balanced (act s a) rest (act-Balanced s a v)
