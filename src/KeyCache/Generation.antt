-- ===== src/KeyCache/Generation.antt =====
-- The generation of the key cache of internal/gateway/principal.go over a run.
use yzapi.Base.{
  ℕ, suc, ◌+◌, ◌^◌, ◌≤◌, ◌<◌, inl, inr, Option, none, some, List, [], ◌∷◌, ◌==◌, length, Bool-cases,
  arith,
}
use yzapi.Base.Pick.{All, All-map, All-pick}
use yzapi.KeyCache.Steps.{look-cases, queries-cases, stores-cases}
use yzapi.KeyCache.{
  Principal, Pending, Cache, invalidate, keep, Act, changes, invalidates, looks, queries, stores,
  finished, act, run,
}

-- Every lookup under way has seen a generation up to the present one.
abbrev pub Early : ℕ → List Pending → Type 0
Early gen = All (λ l. l.seen ≤ gen)

abbrev pub Grown : ℕ → Cache → Type 0
Grown gen c = (gen ≤ c.gen) × (c.gen ≤ suc gen) × Early c.gen c.pending

finished-Grown :
    (gen now : ℕ) (h seen : ℕ) (read : Option (Option Principal)) (c : Cache)
    → Grown gen c
    → Grown gen (finished now (record { hash = h; seen = seen; read = read }) c)
unfolding keep
finished-Grown gen now h seen none c g = g
finished-Grown gen now h seen (some p) c g = elim (Bool-cases (c.gen == seen)) [
  | inl same ↦ rw same g
  | inr moved ↦ rw moved g
]

pub act-Grown :
    (c : Cache) (a : Act) → suc c.gen < 2 ^ 64 → Early c.gen c.pending → Grown c.gen (act c a)
unfolding act invalidate
act-Grown c (changes h row) small early = (omega arith, omega arith, early)
act-Grown c invalidates small early =
    (omega arith, omega arith, All-map c.pending (λ l le. omega arith) early)
act-Grown c (looks h now) small early =
    look-cases (Grown c.gen) h now c (omega arith, omega arith, early)
      (omega arith, omega arith, (omega arith, early))
act-Grown c (queries i now ok) small early =
    queries-cases (Grown c.gen) c i now ok (omega arith, omega arith, early)
      (λ l others e.
        let (fresh, old) = All-pick (λ l. l.seen ≤ c.gen) i c.pending l others e early in
        (omega arith, omega arith, (fresh, old)))
act-Grown c (stores i now) small early =
    stores-cases (Grown c.gen) c i now (omega arith, omega arith, early)
      (λ l others e.
        let (fresh, old) = All-pick (λ l. l.seen ≤ c.gen) i c.pending l others e early in
        finished-Grown c.gen now l.hash l.seen l.read (record c { pending = others })
          (omega arith, omega arith, old))

pub run-Early :
    (c : Cache) (acts : List Act)
    → c.gen + length acts < 2 ^ 64
    → Early c.gen c.pending
    → ((run c acts).gen ≤ c.gen + length acts) × Early (run c acts).gen (run c acts).pending
unfolding run
run-Early c [] small early = (omega arith, early)
run-Early c (a ∷ acts) small early =
    let (up, step, early') = act-Grown c a (omega arith) early in
    let (bound, last) = run-Early (act c a) acts (omega arith) early' in (omega arith, last)
