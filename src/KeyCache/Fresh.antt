-- ===== src/KeyCache/Fresh.antt =====
-- A hit of the key cache of internal/gateway/principal.go is not older than the last invalidation.
use yzapi.Base.{
  ℕ, suc, ◌+◌, ◌^◌, ◌≤◌, ◌<◌, ◌≡◌, ◌⊎◌, refl, subst, Bool, true, false, inl, inr, Option, none,
  some, List, [], ◌∷◌, ◌==◌, length, Bool-cases, arith,
}
use yzapi.Base.Pick.{All, All-map, All-pick, pick}
use yzapi.KeyCache.Entries.{store-All, find-All}
use yzapi.KeyCache.Generation.{Early, act-Grown, run-Early}
use yzapi.KeyCache.Steps.{look-cases, queries-cases, stores-cases, hit_or_miss-hit}
use yzapi.KeyCache.{
  ApiKey, Principal, Entry, Pending, Cache, ttl, find, invalidate, look, answer, keep, Act, changes,
  invalidates, looks, queries, stores, finished, act, run,
}

-- The step is a query for the key `h` that the database does not answer.
abbrev pub FailsNow : ℕ → Act → Cache → Type 0
FailsNow h (queries i now ok) c =
    (ok ≡ false)
    × (l : Pending) × (others : List Pending) × (pick i c.pending ≡ some (l, others))
    × (l.hash ≡ h)
FailsNow h a c = ⊥

-- On the way of these steps a query for the key `h` fails.
abbrev pub Fails : ℕ → List Act → Cache → Type 0
Fails h [] c = ⊥
Fails h (a ∷ acts) c = FailsNow h a c ⊎ Fails h acts (act c a)

-- The answer is what a query of the present rows gives, at some time, or it is that of an unknown key
-- and the key is one of the `lost`.
abbrev pub Current : (lost : ℕ → Type 0) → (ℕ → Option ApiKey) → ℕ → Option Principal → Type 0
Current lost rows h p = ((t : ℕ) × (p ≡ answer t true (rows h))) ⊎ ((p ≡ none) × lost h)

module _ (lost : ℕ → Type 0) where
  abbrev EntryCurrent : (ℕ → Option ApiKey) → Entry → Type 0
  EntryCurrent rows e = Current lost rows e.hash e.p

  abbrev ReadCurrent : (ℕ → Option ApiKey) → ℕ → Option (Option Principal) → Type 0
  ReadCurrent rows h none = Unit
  ReadCurrent rows h (some p) = Current lost rows h p

  -- A lookup began before the invalidation, or it has read nothing, the present rows or an error.
  abbrev PendingCurrent : ℕ → (ℕ → Option ApiKey) → Pending → Type 0
  PendingCurrent floor rows l = (suc l.seen ≤ floor) ⊎ ReadCurrent rows l.hash l.read

record Valid (lost : ℕ → Type 0) (floor : ℕ) (c : Cache) : Type 0 where
  later : floor ≤ c.gen
  entries : All (EntryCurrent lost c.rows) c.m
  lookups : All (PendingCurrent lost floor c.rows) c.pending

answer-Current :
    (lost : ℕ → Type 0) (rows : ℕ → Option ApiKey) (h now : ℕ) (ok : Bool)
    → (ok ≡ false → lost h)
    → Current lost rows h (answer now ok (rows h))
answer-Current lost rows h now true fails = inl (now, refl)
answer-Current lost rows h now false fails = inr (refl, fails refl)

keep-Valid :
    (lost : ℕ → Type 0) (floor now : ℕ) (l : Pending) (p : Option Principal) (c : Cache)
    → (suc l.seen ≤ floor) ⊎ Current lost c.rows l.hash p
    → Valid lost floor c
    → Valid lost floor (keep now l p c)
unfolding keep
keep-Valid lost floor now l p c fresh v = elim (Bool-cases (c.gen == l.seen)) [
  | inr moved ↦ rw moved v
  | inl same ↦ rw same (elim fresh [
    | inl old ↦ let later = v.later in absurd (ground arith)
    | inr current ↦ record {
      later = v.later;
      entries =
          store-All (EntryCurrent lost c.rows) now
            (record { hash = l.hash; p = p; expires = now + ttl p }) c.m current v.entries;
      lookups = v.lookups;
    }
  ])
]

-- The act leaves the rows alone.
abbrev pub IsQuiet : List Act → Type 0
IsQuiet [] = Unit {0}
IsQuiet (changes h row ∷ acts) = ⊥
IsQuiet (a ∷ acts) = IsQuiet acts

abbrev add_lookup : Cache → Pending → List Pending → Cache
add_lookup c l others = record c { pending = l ∷ others }

finished-Valid :
    (lost : ℕ → Type 0) (floor now : ℕ) (h seen : ℕ) (read : Option (Option Principal)) (c : Cache)
    → PendingCurrent lost floor c.rows (record { hash = h; seen = seen; read = read })
    → Valid lost floor c
    → Valid lost floor (finished now (record { hash = h; seen = seen; read = read }) c)
finished-Valid lost floor now h seen none c fresh v = v
finished-Valid lost floor now h seen (some p) c fresh v =
    keep-Valid lost floor now (record { hash = h; seen = seen; read = some p }) p c fresh v

invalidate-Valid :
    (lost : ℕ → Type 0) (floor : ℕ) (c : Cache)
    → suc c.gen < 2 ^ 64
    → Valid lost floor c
    → Valid lost floor (invalidate c)
unfolding invalidate
invalidate-Valid lost floor c small v = record {
  later = let later = v.later in omega arith;
  entries = tt;
  lookups = v.lookups;
}

act-Valid :
    (lost : ℕ → Type 0) (floor : ℕ) (c : Cache) (a : Act) (rest : List Act)
    → IsQuiet (a ∷ rest)
    → ((k : ℕ) → Fails k (a ∷ rest) c → lost k)
    → suc c.gen < 2 ^ 64
    → Valid lost floor c
    → Valid lost floor (act c a)
unfolding act
act-Valid lost floor c (changes h row) rest quiet fails small v = absurd quiet
act-Valid lost floor c invalidates rest quiet fails small v = invalidate-Valid lost floor c small v
act-Valid lost floor c (looks h now) rest quiet fails small v =
    look-cases (Valid lost floor) h now c v
      (record { later = v.later; entries = v.entries; lookups = (inr tt, v.lookups) })
act-Valid lost floor c (queries i now ok) rest quiet fails small v =
    queries-cases (Valid lost floor) c i now ok v (λ l others e.
      let (fresh, old) =
        All-pick (PendingCurrent lost floor c.rows) i c.pending l others e v.lookups in
      record {
        later = v.later;
        entries = v.entries;
        lookups = (
          inr (
              answer-Current lost c.rows l.hash now ok
                (λ failed. fails l.hash (inl (failed, l, others, e, refl)))),
          old,
        );
      })
act-Valid lost floor c (stores i now) rest quiet fails small v =
    stores-cases (Valid lost floor) c i now v (λ l others e.
      let (fresh, old) =
        All-pick (PendingCurrent lost floor c.rows) i c.pending l others e v.lookups in
      finished-Valid lost floor now l.hash l.seen l.read (record c { pending = others }) fresh
        (record { later = v.later; entries = v.entries; lookups = old }))

IsQuiet-tail : (a : Act) (acts : List Act) → IsQuiet (a ∷ acts) → IsQuiet acts
IsQuiet-tail (changes h row) acts quiet = absurd quiet
IsQuiet-tail invalidates acts quiet = quiet
IsQuiet-tail (looks h now) acts quiet = quiet
IsQuiet-tail (queries i now ok) acts quiet = quiet
IsQuiet-tail (stores i now) acts quiet = quiet

run-Valid :
    (lost : ℕ → Type 0) (floor : ℕ) (c : Cache) (acts : List Act)
    → IsQuiet acts
    → ((k : ℕ) → Fails k acts c → lost k)
    → c.gen + length acts < 2 ^ 64
    → Early c.gen c.pending
    → Valid lost floor c
    → Valid lost floor (run c acts)
unfolding run
run-Valid lost floor c [] quiet fails small early v = v
run-Valid lost floor c (a ∷ acts) quiet fails small early v =
    let (up, step, early') = act-Grown c a (omega arith) early in
    run-Valid lost floor (act c a) acts (IsQuiet-tail a acts quiet) (λ k later. fails k (inr later))
      (omega arith) early' (act-Valid lost floor c a acts quiet fails (omega arith) v)

-- The cache at the start.
abbrev pub start : (ℕ → Option ApiKey) → Cache
start rows = record { m = []; gen = 0; pending = []; rows = rows }

restart-Valid :
    (lost : ℕ → Type 0) (c : Cache)
    → suc c.gen < 2 ^ 64
    → Early c.gen c.pending
    → Valid lost (suc c.gen) (invalidate c)
unfolding invalidate
restart-Valid lost c small early = record {
  later = omega arith;
  entries = tt;
  lookups = All-map c.pending (λ l le. inl (omega arith)) early;
}

look-hit :
    (lost : ℕ → Type 0) (floor h now : ℕ) (c : Cache) (p : Option Principal)
    → Valid lost floor c
    → (look h now c).1 ≡ some p
    → Current lost c.rows h p
unfolding look
look-hit lost floor h now c p v hit =
    let (entry, found, same_p) = hit_or_miss-hit h now c (find h c.m) p hit in
    let (current, same) = find-All (EntryCurrent lost c.rows) h c.m entry found v.entries in
    subst (Current lost c.rows h) same_p (subst (λ x. Current lost c.rows x entry.p) same current)

-- Once the cache is invalidated after the last change of the rows, a hit is the answer that the present
-- rows give, whatever lookups were under way or overlap, or it is that of an unknown key and the
-- database failed to answer a query for this key after the invalidation; fewer than 2^64 steps are
-- counted.
pub look-Current :
    (rows : ℕ → Option ApiKey) (before after : List Act) (h now : ℕ) (p : Option Principal)
    → suc (length before + length after) < 2 ^ 64
    → IsQuiet after
    → (look h now (run (invalidate (run (start rows) before)) after)).1 ≡ some p
    → Current
        (λ k. Fails k after (invalidate (run (start rows) before)))
        (run (invalidate (run (start rows) before)) after).rows
        h
        p
unfolding act invalidate
look-Current rows before after h now p small quiet hit =
    let c = run (start rows) before in
    let lost : ℕ → Type 0 = λ k. Fails k after (invalidate c) in
    let (bound, early) = run-Early (start rows) before (omega arith) tt in
    let (up, step, early') = act-Grown c invalidates (omega arith) early in
    look-hit lost (suc c.gen) h now (run (invalidate c) after) p
      (run-Valid lost (suc c.gen) (invalidate c) after quiet (λ k failed. failed) (omega arith)
        early' (restart-Valid lost c (omega arith) early))
      hit
