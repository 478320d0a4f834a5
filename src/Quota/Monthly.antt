-- ===== src/Quota/Monthly.antt =====
-- What internal/gateway/quota.go counts in one month, whatever the database answers meanwhile.
use native.Mathlib.Decide.{ℕ_discrete}
use yzapi.Base.{
  ℕ, ◌+◌, ◌≤◌, ◌≡◌, true, Option, none, some, List, [], ◌∷◌, ◌==◌, if◌then◌else◌, inl, inr, refl,
  subst, update, Bool-cases, arith,
}
use yzapi.Base.Int.{ℤ, pos_part, positive}
use yzapi.Quota.{
  Used, Quota, at, collect, keep_higher, refresh, add, usage, exceeded, Call, refreshes, adds, step,
  run,
}

-- The tokens that the calls add to a group.
unfoldable pub added : ℕ → List Call → ℕ
added id [] = 0
added id (refreshes rows ∷ cs) = added id cs
added id (adds id' tokens ∷ cs) = (if id' == id then pos_part tokens else 0) + added id cs

keep_higher-le : (used m : Used) (id : ℕ) → at (used id) ≤ at (keep_higher used m id)
unfolding keep_higher
keep_higher-le used m id = ground arith

refresh-le :
    (start id : ℕ) (rows : Option (List (ℕ × ℕ))) (q : Quota)
    → q.month ≡ start
    → usage id q ≤ usage id (refresh start rows q)
unfolding refresh
refresh-le start id none q e = omega arith
refresh-le start id (some rows) q e = elim (Bool-cases (q.month == start)) [
  | inl same ↦ rw same (keep_higher-le q.used (collect rows (λ i. none)) id)
  | inr other ↦ absurd (ground arith)
]

add-usage :
    (start id id' : ℕ) (tokens : ℤ) (q : Quota)
    → q.month ≡ start
    → usage id q + (if id' == id then pos_part tokens else 0) ≡ usage id (add start id' tokens q)
unfolding add
add-usage start id id' tokens q e = elim (Bool-cases (positive tokens)) [
  | inr none_added ↦ rw none_added (ground arith)
  | inl some_added ↦ rw some_added (elim (Bool-cases (q.month == start)) [
    | inr later ↦ absurd (ground arith)
    | inl same ↦ rw same (elim (ℕ_discrete id' id) [
      | yes e' ↦
          subst
            (λ i.
              usage i q + (if id' == i then pos_part tokens else 0)
              ≡ at (update q.used id' (some (at (q.used id') + pos_part tokens)) i))
            e' (ground arith)
      | no d ↦ ground arith
    ])
  ])
]

step-month : (start : ℕ) (q : Quota) (c : Call) → q.month ≡ start → (step start q c).month ≡ start
unfolding step refresh add
step-month start q (refreshes none) e = e
step-month start q (refreshes (some rows)) e = refl
step-month start q (adds id tokens) e = ground arith

-- Through any calls of one month, a counter grows by all the tokens that are added: no refresh takes
-- any away.
pub run-added :
    (start id : ℕ) (q : Quota) (cs : List Call)
    → q.month ≡ start
    → usage id q + added id cs ≤ usage id (run start q cs)
unfolding added run step
run-added start id q [] e = omega arith
run-added start id q (refreshes rows ∷ cs) e = omega (
  arith,
  refresh-le start id rows q e,
  run-added start id (refresh start rows q) cs (step-month start q (refreshes rows) e),
)
run-added start id q (adds id' tokens ∷ cs) e = omega (
  arith,
  add-usage start id id' tokens q e,
  run-added start id (add start id' tokens q) cs (step-month start q (adds id' tokens) e),
)

-- A group that has used up its quota in a month is refused in that month, whatever the database
-- answered meanwhile.
pub quota_enforced :
    (start id : ℕ) (q : Quota) (cs : List Call) (quota : ℤ)
    → q.month ≡ start
    → positive quota ≡ true
    → pos_part quota ≤ added id cs
    → exceeded id quota (run start q cs) ≡ true
unfolding exceeded
quota_enforced start id q cs quota e some_quota used_up =
    let grown = run-added start id q cs e in ground arith
