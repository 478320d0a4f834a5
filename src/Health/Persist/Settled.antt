-- ===== src/Health/Persist/Settled.antt =====
-- Whatever order the writes of internal/gateway/health.go land in, the row ends up right.
use yzapi.Base.{
  ℕ, ◌+◌, ◌%◌, ◌^◌, ◌≤◌, ◌<◌, ◌≡◌, ◌≢◌, refl, sym, ap, ◌∙◌, ◌⊎◌, inl, inr, Option, none, some, List,
  [], ◌∷◌, ◌==◌, not, ◌&&◌, arith, update, update_self, update_other, if◌then◌else◌, Option-cases,
  Bool-cases,
}
use native.Mathlib.Decide.{ℕ_discrete}
use native.Mathlib.Nat.{mod-eq_of_lt}
use yzapi.Base.Pick.{pick, All, Exists, All-pick, Exists-pick, All-map}
use yzapi.Health.Truncate.{truncate}
use yzapi.Health.Circuit.{available-none, available-some}
use yzapi.Health.{
  AccountHealth, Columns, Write, is_available, is_cooling, or_new, admit, available, ok, heal,
}
use yzapi.Health.Persist.{System, succeeds, act}

-- The row that says what the record of an account says.
abbrev pub row_of : AccountHealth → Columns
row_of s =
    if s.failures == 0
    then record { health = is_available; cooldown_until = none; last_error = [] }
    else record {
      health = is_cooling;
      cooldown_until = some s.cooldown_until;
      last_error = truncate s.last_error 500;
    }

module _ (id : ℕ) where
  -- The latest change of the account is in the row, or its write is still to land.
  abbrev pub Tracked : ℕ → Option AccountHealth → List Write → Option Columns → Type 0
  Tracked n none pending row = All (λ w. w.id ≢ id) pending
  Tracked n (some s) pending row =
      (s.seq ≤ n)
      × (s.persisted ≤ s.seq)
      × All (λ w. w.id ≡ id → (w.seq ≤ s.seq) × (w.seq ≡ s.seq → w.columns ≡ row_of s)) pending
      × (((s.persisted ≡ s.seq) × (row ≡ some (row_of s)))
          ⊎ Exists (λ w. (w.id ≡ id) × (w.seq ≡ s.seq)) pending)

  pub Tracked-later :
      (n : ℕ) (o : Option AccountHealth) (pending : List Write) (row : Option Columns)
      → Tracked n o pending row
      → Tracked (n + 1) o pending row
  Tracked-later n none pending row t = t
  Tracked-later n (some s) pending row t = (omega arith, t.1, t.2, t.3)

  seq-le :
      (n : ℕ) (o : Option AccountHealth) (pending : List Write) (row : Option Columns)
      → Tracked n o pending row
      → (or_new o).seq ≤ n
  seq-le n none pending row t = omega arith
  seq-le n (some s) pending row t = t.0

  -- a change of the account, with its write
  Tracked-change :
      (n : ℕ) (o : Option AccountHealth) (pending : List Write) (row : Option Columns)
      (s : AccountHealth) (w : Write)
      → Tracked n o pending row
      → s.seq ≡ (or_new o).seq + 1
      → s.persisted ≡ (or_new o).persisted
      → w.id ≡ id
      → w.seq ≡ s.seq
      → w.columns ≡ row_of s
      → Tracked (n + 1) (some s) (w ∷ pending) row
  Tracked-change n none pending row s w t q p i e c = (
    omega arith,
    omega arith,
    ((λ j. (omega arith, λ k. c)), All-map pending (λ x d j. absurd (d j)) t),
    inr (inl (i, e)),
  )
  Tracked-change n (some old) pending row s w t q p i e c = (
    omega arith,
    omega arith,
    (
      (λ j. (omega arith, λ k. c)),
      All-map pending (λ x d j. (omega (arith, (d j).0), λ k. absurd (omega (arith, (d j).0)))) t.2,
    ),
    inr (inl (i, e)),
  )

  -- a write of another account
  Tracked-other :
      (n : ℕ) (o : Option AccountHealth) (pending : List Write) (row : Option Columns) (w : Write)
      → w.id ≢ id
      → Tracked n o pending row
      → Tracked n o (w ∷ pending) row
  Tracked-other n none pending row w d t = (d, t)
  Tracked-other n (some s) pending row w d t = (
    t.0,
    t.1,
    ((λ j. absurd (d j)), t.2),
    elim t.3 [ inl done ↦ inl done | inr later ↦ inr (inr later) ],
  )

  pub Tracked-drop :
      (n : ℕ) (o : Option AccountHealth) (pending left : List Write) (row : Option Columns) (i : ℕ)
      (w : Write)
      → pick i pending ≡ some (w, left)
      → w.id ≢ id
      → Tracked n o pending row
      → Tracked n o left row
  Tracked-drop n none pending left row i w e d t = (All-pick _ i pending w left e t).1
  Tracked-drop n (some s) pending left row i w e d t = (
    t.0,
    t.1,
    (All-pick _ i pending w left e t.2).1,
    elim t.3 [
      | inl done ↦ inl done
      | inr later ↦
          elim (Exists-pick (λ x. (x.id ≡ id) × (x.seq ≡ s.seq)) i pending w left e later) [
            | inl here ↦ absurd (d here.0)
            | inr there ↦ inr there
          ]
    ],
  )

  -- a write of this account lands
  pub Tracked-land :
      (n : ℕ) (s : AccountHealth) (pending left : List Write) (row : Option Columns) (i : ℕ)
      (w : Write)
      → pick i pending ≡ some (w, left)
      → w.id ≡ id
      → Tracked n (some s) pending row
      → (w.seq < s.persisted → Tracked n (some s) left row)
        × (s.persisted ≤ w.seq
            → Tracked n (some (record s { persisted = w.seq })) left (some w.columns))
  Tracked-land n s pending left row i w e same t = (
    λ stale. (
      t.0,
      t.1,
      taken.1,
      elim t.3 [
        | inl done ↦ inl done
        | inr later ↦
            elim (Exists-pick (λ x. (x.id ≡ id) × (x.seq ≡ s.seq)) i pending w left e later) [
              | inl here ↦ absurd (omega (arith, here.1, t.1))
              | inr there ↦ inr there
            ]
      ],
    ),
    λ new. (
      t.0,
      (taken.0 same).0,
      taken.1,
      elim (ℕ_discrete w.seq s.seq) [
        | yes latest ↦ inl (latest, ap some ((taken.0 same).1 latest))
        | no earlier ↦ elim t.3 [
          | inl done ↦ absurd (earlier (omega (arith, done.0, (taken.0 same).0)))
          | inr later ↦
              elim (Exists-pick (λ x. (x.id ≡ id) × (x.seq ≡ s.seq)) i pending w left e later) [
                | inl here ↦ absurd (earlier here.1)
                | inr there ↦ inr there
              ]
        ]
      ],
    ),
  )
    where
      taken :
          (w.id ≡ id → (w.seq ≤ s.seq) × (w.seq ≡ s.seq → w.columns ≡ row_of s))
          × All (λ w. w.id ≡ id → (w.seq ≤ s.seq) × (w.seq ≡ s.seq → w.columns ≡ row_of s)) left
      taken = All-pick _ i pending w left e t.2

  abbrev pub Kept : ℕ → System → Type 0
  Kept n sys = Tracked n (sys.tracker id) sys.pending (sys.rows id)

  -- A call about account `j` that changes its record and queues a write.
  pub change-Kept :
      (n j : ℕ) (sys : System) (s : AccountHealth) (w : Write)
      → n + 1 < 2 ^ 64
      → s.seq ≡ ((or_new (sys.tracker j)).seq + 1) % 2 ^ 64
      → s.persisted ≡ (or_new (sys.tracker j)).persisted
      → w.id ≡ j
      → w.seq ≡ s.seq
      → w.columns ≡ row_of s
      → Kept n sys
      → Kept
          (n + 1)
          (record sys { tracker = update sys.tracker j (some s); pending = w ∷ sys.pending })
  change-Kept n j sys s w small q p i e c k = elim (ℕ_discrete j id) [
    | yes same ↦ rw (update_self {A = Option AccountHealth} sys.tracker j id (some s) same) (
        Tracked-change n (sys.tracker id) sys.pending (sys.rows id) s w k
          (rw (ap sys.tracker same) at (q ∙ mod-eq_of_lt (seq-small same)))
          (rw (ap sys.tracker same) at p) (i ∙ same) e c)
    | no other ↦ rw (update_other {A = Option AccountHealth} sys.tracker j id (some s) other) (
        Tracked-later n (sys.tracker id) (w ∷ sys.pending) (sys.rows id)
          (Tracked-other n (sys.tracker id) sys.pending (sys.rows id) w (λ z. other (sym i ∙ z)) k))
  ]
    where
      seq-small : j ≡ id → (or_new (sys.tracker j)).seq + 1 < 2 ^ 64
      seq-small same =
          rw (ap sys.tracker same)
            (omega (arith, seq-le n (sys.tracker id) sys.pending (sys.rows id) k))

  Tracked-same :
      (n : ℕ) (s r : AccountHealth) (pending : List Write) (row : Option Columns)
      → r.seq ≡ s.seq
      → r.persisted ≡ s.persisted
      → row_of r ≡ row_of s
      → Tracked n (some s) pending row
      → Tracked n (some r) pending row
  Tracked-same n s r pending row q p c t = rw (q, p, c) t

  admit-same :
      (now : ℕ) (s : AccountHealth)
      → ((admit now s).0.seq ≡ s.seq)
        × ((admit now s).0.persisted ≡ s.persisted)
        × (row_of (admit now s).0 ≡ row_of s)
  unfolding admit
  admit-same now s = (ground arith, ground arith, ground arith)

  pub asks-Kept :
      (n j now : ℕ) (sys : System)
      → Kept n sys
      → Kept (n + 1) (record sys { tracker = (available j now sys.tracker).0 })
  asks-Kept n j now sys k = elim (Option-cases (sys.tracker j)) [
    | inl missing ↦
        rw (available-none j now sys.tracker missing)
          (Tracked-later n (sys.tracker id) sys.pending (sys.rows id) k)
    | inr (s, found) ↦ rw (available-some j now sys.tracker s found) (elim (ℕ_discrete j id) [
      | yes same ↦
          rw (update_self {A = Option AccountHealth} sys.tracker j id (some (admit now s).0) same) (
            Tracked-later n (some (admit now s).0) sys.pending (sys.rows id) (
              let (q, p, c) = admit-same now s in
              Tracked-same n s (admit now s).0 sys.pending (sys.rows id) q p c
                (rw (sym (ap sys.tracker same) ∙ found) at k)))
      | no other ↦
          rw (update_other {A = Option AccountHealth} sys.tracker j id (some (admit now s).0) other)
            (Tracked-later n (sys.tracker id) sys.pending (sys.rows id) k)
    ])
  ]

  pub later-Kept : (n : ℕ) (sys : System) → Kept n sys → Kept (n + 1) sys
  later-Kept n sys k = Tracked-later n (sys.tracker id) sys.pending (sys.rows id) k

  pub ok-Kept :
      (n j : ℕ) (sys : System) → n + 1 < 2 ^ 64 → Kept n sys → Kept (n + 1) (act sys (succeeds j))
  unfolding act ok heal
  ok-Kept n j sys small k = elim (Option-cases (sys.tracker j)) [
    | inl missing ↦ rw (missing, ok) (later-Kept n sys k)
    | inr (s, found) ↦ elim (Bool-cases (s.failures == 0 && not s.unavailable)) [
      | inl healthy ↦ rw (found, ok, healthy) (later-Kept n sys k)
      | inr sick ↦
          rw (found, ok, sick)
            (change-Kept n j sys (heal s) _ small (rw found refl) (rw found refl) refl refl refl k)
    ]
  ]
