-- ===== src/Health/Persist/Runs.antt =====
-- Every schedule of the calls and writes of internal/gateway/health.go leaves the rows right.
use yzapi.Base.{
  ℕ, ◌+◌, ◌^◌, ◌<◌, ◌≡◌, ◌≢◌, refl, sym, ap, ◌∙◌, inl, inr, Option, none, some, List, [], ◌∷◌, ltb,
  arith, update_self, update_other, length, Option-cases, Bool-cases,
}
use native.Mathlib.Decide.{ℕ_discrete}
use yzapi.Base.Pick.{pick, All, All-pick, Exists}
use mathlib.Core.Path.{subst}
use native.Mathlib.Nat.{add-zero}
use yzapi.Health.Truncate.{Bytes}
use yzapi.Health.{AccountHealth, Columns, Write, fail, fail_for, reset}
use yzapi.Health.Persist.{
  System, Act, asks, fails, fails_for, succeeds, resets, lands, land, landed, act, run, init,
}
use yzapi.Health.Persist.Settled.{
  row_of, Kept, Tracked-drop, Tracked-later, Tracked-land, asks-Kept, later-Kept, ok-Kept,
  change-Kept,
}

module _ (id : ℕ) where
  land-Kept :
      (n : ℕ) (sys : System) (i : ℕ) (w : Write) (left : List Write) (s : AccountHealth)
      → pick i sys.pending ≡ some (w, left)
      → sys.tracker w.id ≡ some s
      → Kept id n sys
      → Kept id n (land w s (record sys { pending = left }))
  unfolding land
  land-Kept n sys i w left s e found k = elim (ℕ_discrete w.id id) [
    | yes same ↦
        let moved =
          Tracked-land id n s sys.pending left (sys.rows id) i w e same
            (rw (sym (ap sys.tracker same) ∙ found) at k) in
        elim (Bool-cases (ltb w.seq s.persisted)) [
          | inl stale ↦ rw (stale, sym (ap sys.tracker same) ∙ found) (moved.0 (ground arith))
          | inr new ↦
              rw
                (
                  new,
                  update_self {A = Option AccountHealth} sys.tracker w.id id
                      (some (record s { persisted = w.seq })) same,
                  update_self {A = Option Columns} sys.rows w.id id (some w.columns) same,
                )
                (moved.1 (ground arith))
        ]
    | no other ↦
        let dropped =
          Tracked-drop id n (sys.tracker id) sys.pending left (sys.rows id) i w e other k in
        elim (Bool-cases (ltb w.seq s.persisted)) [
          | inl stale ↦ rw stale dropped
          | inr new ↦
              rw
                (
                  new,
                  update_other {A = Option AccountHealth} sys.tracker w.id id
                      (some (record s { persisted = w.seq })) other,
                  update_other {A = Option Columns} sys.rows w.id id (some w.columns) other,
                )
                dropped
        ]
  ]

  lands-Kept : (n i : ℕ) (sys : System) → Kept id n sys → Kept id (n + 1) (act sys (lands i))
  unfolding act landed
  lands-Kept n i sys k = elim (Option-cases (pick i sys.pending)) [
    | inl nothing ↦ rw (nothing, act) (later-Kept id n sys k)
    | inr ((w, left), e) ↦ elim (Option-cases (sys.tracker w.id)) [
      | inl missing ↦
          rw (e, act, missing, landed)
            (elim (ℕ_discrete w.id id) [
              | yes same ↦ absurd (
                  (All-pick (λ x. x.id ≢ id) i sys.pending w left e
                      (rw (sym (ap sys.tracker same) ∙ missing) at k)).0
                    same)
              | no other ↦
                  Tracked-later id n (sys.tracker id) left (sys.rows id) (
                    Tracked-drop id n (sys.tracker id) sys.pending left (sys.rows id) i w e other k)
            ])
      | inr (s, found) ↦
          rw (e, act, found, landed)
            (later-Kept id n (land w s (record sys { pending = left }))
              (land-Kept n sys i w left s e found k))
    ]
  ]

  -- The act does not reset the account.
  abbrev pub Spares : Act → Type 0
  Spares (resets j) = j ≢ id
  Spares a = Unit {0}

  fails-Kept :
      (n j base now : ℕ) (msg : Bytes) (sys : System)
      → n + 1 < 2 ^ 64
      → Kept id n sys
      → Kept id (n + 1) (act sys (fails j base msg now))
        × Kept id (n + 1) (act sys (fails_for j base msg now))
  unfolding act fail fail_for
  fails-Kept n j base now msg sys small k = (
    change-Kept id n j sys _ _ small refl refl refl refl (ground arith) k,
    change-Kept id n j sys _ _ small refl refl refl refl (ground arith) k,
  )

  act-Kept :
      (n : ℕ) (sys : System) (a : Act)
      → n + 1 < 2 ^ 64
      → Spares a
      → Kept id n sys
      → Kept id (n + 1) (act sys a)
  act-Kept n sys (asks j now) small h k = unfold act in asks-Kept id n j now sys k
  act-Kept n sys (fails j base msg now) small h k = (fails-Kept n j base now msg sys small k).0
  act-Kept n sys (fails_for j d msg now) small h k = (fails-Kept n j d now msg sys small k).1
  act-Kept n sys (succeeds j) small h k = ok-Kept id n j sys small k
  act-Kept n sys (resets j) small h k =
      unfold act reset in
      rw (update_other {A = Option AccountHealth} sys.tracker j id none h) (later-Kept id n sys k)
  act-Kept n sys (lands i) small h k = lands-Kept n i sys k

  run-Kept :
      (n : ℕ) (sys : System) (acts : List Act)
      → n + length acts < 2 ^ 64
      → All Spares acts
      → Kept id n sys
      → Kept id (n + length acts) (run sys acts)
  unfolding run
  run-Kept n sys [] small h k = rw (add-zero n) k
  run-Kept n sys (a ∷ acts) small h k =
      subst (λ m. Kept id m (run (act sys a) acts)) (omega arith)
        (run-Kept (n + 1) (act sys a) acts (omega arith) h.1 (act-Kept n sys a (omega arith) h.0 k))

-- However the calls about an account and the writes of its changes are interleaved, once none of
-- its writes is still to land, its row says what the tracker says of it: an older write that
-- lands late has overwritten nothing newer. The account is not reset meanwhile, and fewer than
-- 2 ^ 64 acts leave its change counter below its wrap-around.
pub rows_settle :
    (id : ℕ) (acts : List Act) (s : AccountHealth)
    → length acts < 2 ^ 64
    → All (Spares id) acts
    → (run init acts).tracker id ≡ some s
    → All (λ w. w.id ≢ id) (run init acts).pending
    → (run init acts).rows id ≡ some (row_of s)
rows_settle id acts s small h found settled =
    elim (rw found at (run-Kept id 0 init acts (omega arith) h tt)).3 [
      | inl done ↦ done.1
      | inr later ↦ absurd (not-Exists _ (run init acts).pending settled later)
    ]
  where
    not-Exists :
        (n : ℕ) (pending : List Write)
        → All (λ w. w.id ≢ id) pending
        → Exists (λ w. (w.id ≡ id) × (w.seq ≡ n)) pending
        → ⊥
    not-Exists n [] a e = e
    not-Exists n (w ∷ pending) a e = elim e [
      | inl here ↦ a.0 here.0
      | inr there ↦ not-Exists n pending a.1 there
    ]
