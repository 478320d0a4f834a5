-- ===== src/Health/Circuit.antt =====
-- The circuit breaker of internal/gateway/health.go: cooldowns and the half-open probe.
use yzapi.Base.{
  ℕ, ◌+◌, ◌≤◌, ◌<◌, ◌≡◌, ◌≢◌, refl, ap, ◌∙◌, Bool, true, false, none, some, List, [], ◌∷◌, arith,
  update,
}
use yzapi.Health.{Tracker, AccountHealth, probe_timeout, admit, available}

-- What `available` answers at each of a list of times.
unfoldable pub answers : ℕ → List ℕ → Tracker → List Bool
answers id [] h = []
answers id (now ∷ later) h = (available id now h).1 ∷ answers id later (available id now h).0

-- The times lie in [from, from + span).
abbrev pub During : ℕ → ℕ → List ℕ → Type 0
During from span [] = Unit {0}
During from span (t ∷ ts) = ((from ≤ t) × (t < from + span)) × During from span ts

abbrev pub all_false : List ℕ → List Bool
all_false [] = []
all_false (t ∷ ts) = false ∷ all_false ts

abbrev pub all_true : List ℕ → List Bool
all_true [] = []
all_true (t ∷ ts) = true ∷ all_true ts

pub available-some :
    (id now : ℕ) (h : Tracker) (s : AccountHealth)
    → h id ≡ some s
    → available id now h ≡ (update h id (some (admit now s).0), (admit now s).1)
unfolding available admit
available-some id now h s e = rw (e, available)

pub update_at_self : (h : Tracker) (id : ℕ) (s : AccountHealth) → update h id (some s) id ≡ some s
update_at_self h id s = ground arith

-- While an account's answer leaves its record alone, later answers are the same.
module _ (id : ℕ) (answer : Bool) (s : AccountHealth) where
  abbrev pub Answers : List ℕ → Type 0
  Answers [] = Unit {0}
  Answers (t ∷ ts) = (admit t s ≡ (s, answer)) × Answers ts

  abbrev pub all_same : List ℕ → List Bool
  all_same [] = []
  all_same (t ∷ ts) = answer ∷ all_same ts

  pub answers-same :
      (ts : List ℕ) (h : Tracker) → h id ≡ some s → Answers ts → answers id ts h ≡ all_same ts
  unfolding answers
  answers-same [] h e a = refl
  answers-same (t ∷ ts) h e a =
      rw (available-some id t h s e, a.0)
        (ap (◌∷◌ answer) (answers-same ts (update h id (some s)) (update_at_self h id s) a.1))

pub all_same-false :
    (id : ℕ) (s : AccountHealth) (ts : List ℕ) → all_same id false s ts ≡ all_false ts
all_same-false id s [] = refl
all_same-false id s (t ∷ ts) = ap (◌∷◌ false) (all_same-false id s ts)

pub all_same-true : (id : ℕ) (s : AccountHealth) (ts : List ℕ) → all_same id true s ts ≡ all_true ts
all_same-true id s [] = refl
all_same-true id s (t ∷ ts) = ap (◌∷◌ true) (all_same-true id s ts)

probing-Answers :
    (id now : ℕ) (s : AccountHealth) (ts : List ℕ)
    → s.failures ≢ 0
    → s.probing ≡ true
    → s.probe_since ≡ now
    → During now probe_timeout ts
    → Answers id false s ts
unfolding admit
probing-Answers id now s [] f p q d = tt
probing-Answers id now s (t ∷ ts) f p q d = (ground arith, probing-Answers id now s ts f p q d.1)

admit-probe :
    (now : ℕ) (s : AccountHealth)
    → s.failures ≢ 0
    → (admit now s).1 ≡ true
    → (admit now s).0 ≡ record s { probing = true; probe_since = now }
unfolding admit
admit-probe now s f a = ground arith

-- Half-open: once an account that has failed lets a request through, it lets no other through for
-- 30 seconds, unless an outcome is reported meanwhile.
pub single_probe :
    (id now : ℕ) (h : Tracker) (s : AccountHealth) (ts : List ℕ)
    → h id ≡ some s
    → s.failures ≢ 0
    → (available id now h).1 ≡ true
    → During now probe_timeout ts
    → answers id ts (available id now h).0 ≡ all_false ts
single_probe id now h s ts e f a d =
    rw (available-some id now h s e, admit-probe now s f (rw (available-some id now h s e) at a))
      (answers-same id false probe ts _ (update_at_self h id probe)
          (probing-Answers id now probe ts f refl refl d)
        ∙ all_same-false id probe ts)
  where
    probe : AccountHealth
    probe = record s { probing = true; probe_since = now }

pub available-none : (id now : ℕ) (h : Tracker) → h id ≡ none → available id now h ≡ (h, true)
unfolding available
available-none id now h e = rw (e, available)

pub answers-none :
    (id : ℕ) (ts : List ℕ) (h : Tracker) → h id ≡ none → answers id ts h ≡ all_true ts
unfolding answers
answers-none id [] h e = refl
answers-none id (t ∷ ts) h e = rw (available-none id t h e) (ap (◌∷◌ true) (answers-none id ts h e))
