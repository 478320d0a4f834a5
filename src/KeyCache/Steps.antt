-- ===== src/KeyCache/Steps.antt =====
-- The steps of a lookup in internal/gateway/principal.go, case by case.
use yzapi.Base.{
  ℕ, ◌≡◌, refl, inl, inr, Bool, Option, none, some, List, ◌∷◌, ltb, Bool-cases, Option-cases, arith,
}
use yzapi.Base.Pick.{pick}
use yzapi.KeyCache.{
  Principal, Entry, Pending, Cache, find, look, hit_or_miss, answer, queries, stores, finished, act,
}

hit_or_miss-cases :
    (Q : Cache → Type 0) (h now : ℕ) (c : Cache) (entry : Option Entry)
    → Q c
    → Q (record c { pending = record { hash = h; seen = c.gen; read = none } ∷ c.pending })
    → Q (hit_or_miss h now c entry).0
unfolding hit_or_miss
hit_or_miss-cases Q h now c none hit miss = miss
hit_or_miss-cases Q h now c (some e) hit miss = elim (Bool-cases (ltb now e.expires)) [
  | inl live ↦ rw live hit
  | inr dead ↦ rw dead miss
]

pub look-cases :
    (Q : Cache → Type 0) (h now : ℕ) (c : Cache)
    → Q c
    → Q (record c { pending = record { hash = h; seen = c.gen; read = none } ∷ c.pending })
    → Q (look h now c).0
unfolding look
look-cases Q h now c hit miss = hit_or_miss-cases Q h now c (find h c.m) hit miss

module _ (Q : Cache → Type 0) (c : Cache) where
  pub queries-cases :
      (i now : ℕ) (ok : Bool)
      → Q c
      → ((l : Pending) (others : List Pending)
          → pick i c.pending ≡ some (l, others)
          → Q (record c {
            pending = record l { read = some (answer now ok (c.rows l.hash)) } ∷ others;
          }))
      → Q (act c (queries i now ok))
  unfolding act
  queries-cases i now ok idle found = elim (Option-cases (pick i c.pending)) [
    | inl e ↦ rw (e, act) idle
    | inr ((l, others), e) ↦ rw (e, act) (found l others e)
  ]

  pub stores-cases :
      (i now : ℕ)
      → Q c
      → ((l : Pending) (others : List Pending)
          → pick i c.pending ≡ some (l, others)
          → Q (finished now l (record c { pending = others })))
      → Q (act c (stores i now))
  unfolding act
  stores-cases i now idle found = elim (Option-cases (pick i c.pending)) [
    | inl e ↦ rw (e, act) idle
    | inr ((l, others), e) ↦ rw (e, act) (found l others e)
  ]

pub hit_or_miss-hit :
    (h now : ℕ) (c : Cache) (entry : Option Entry) (p : Option Principal)
    → (hit_or_miss h now c entry).1 ≡ some p
    → (e : Entry) × (entry ≡ some e) × (e.p ≡ p)
unfolding hit_or_miss
hit_or_miss-hit h now c none p hit = absurd (ground arith)
hit_or_miss-hit h now c (some e) p hit = (e, refl, ground arith)
