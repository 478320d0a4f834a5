-- ===== src/Health/Backoff.antt =====
-- Cooldown after failures in internal/gateway/health.go, and recovery.
use yzapi.Base.{
  ℕ, zero, suc, ◌+◌, ◌*◌, ◌^◌, ◌≤◌, ◌<◌, ◌≡◌, ◌⊎◌, inl, inr, refl, sym, ap, ◌∙◌, Bool, false, not,
  ◌&&◌, some, List, [], ◌∷◌, ◌++◌, arith, update, leb, ltb, ◌==◌, Bool-cases,
}
use native.Mathlib.Nat.{le_refl, le_trans}
use yzapi.Health.Truncate.{Bytes}
use yzapi.Health.Circuit.{answers, During, all_false, available-some, update_at_self}
use yzapi.Health.{
  Tracker, AccountHealth, max_cooldown, or_new, admit, doublings, capped, backoff, cool, fail,
  fail_for,
}

doublings-four : (k : ℕ) → doublings (suc (suc (suc (suc (suc k))))) ≡ 4
doublings-four k = ground arith

pow-doublings :
    (k : ℕ)
    → (1 ≤ 2 ^ doublings k) × (2 ^ doublings k ≤ 16) × (2 ^ doublings k ≤ 2 ^ doublings (suc k))
pow-doublings zero = omega arith
pow-doublings (suc zero) = omega arith
pow-doublings (suc (suc zero)) = omega arith
pow-doublings (suc (suc (suc zero))) = omega arith
pow-doublings (suc (suc (suc (suc zero)))) = omega arith
pow-doublings (suc (suc (suc (suc (suc k))))) =
    rw (doublings-four k, doublings-four (suc k)) (omega arith)

capped_lem : (a b : ℕ) → a ≤ b → (capped a ≤ capped b) × (capped a ≤ max_cooldown) × (capped a ≤ a)
unfolding capped
capped_lem a b le = ground arith

le-capped : (a b : ℕ) → a ≤ b → (a ≤ capped b) ⊎ (max_cooldown ≤ capped b)
unfolding capped
le-capped a b le = elim (Bool-cases (ltb max_cooldown b)) [
  | inl e ↦ rw e (inr (ground arith))
  | inr e ↦ rw e (inl le)
]

mul_mono : (c a b : ℕ) → a ≤ b → c * a ≤ c * b
mul_mono c a b le = grind arith

-- what the counts of failures are worth, before the limit: 1, 2, 4, 8, and from the fifth on 16 times
abbrev pub multiple : ℕ → ℕ → ℕ
multiple base zero = base
multiple base (suc zero) = base
multiple base (suc (suc zero)) = 2 * base
multiple base (suc (suc (suc zero))) = 4 * base
multiple base (suc (suc (suc (suc zero)))) = 8 * base
multiple base (suc (suc (suc (suc (suc k))))) = 16 * base

multiple-doublings : (base k : ℕ) → base * 2 ^ doublings k ≡ multiple base k
multiple-doublings base zero = omega arith
multiple-doublings base (suc zero) = omega arith
multiple-doublings base (suc (suc zero)) = omega arith
multiple-doublings base (suc (suc (suc zero))) = omega arith
multiple-doublings base (suc (suc (suc (suc zero)))) = omega arith
multiple-doublings base (suc (suc (suc (suc (suc k))))) = rw (doublings-four k) (omega arith)

capped-least :
    (a : ℕ)
    → ((a ≤ max_cooldown) × (capped a ≡ a)) ⊎ ((max_cooldown < a) × (capped a ≡ max_cooldown))
unfolding capped
capped-least a = elim (Bool-cases (ltb max_cooldown a)) [
  | inl e ↦ rw e (inr (ground arith, refl))
  | inr e ↦ rw e (inl (ground arith, refl))
]

-- The cooldown after `failures` failures in a row is the configured one times 1, 2, 4, 8, and from the
-- fifth failure on 16, or 15 minutes where that is less. It does not fall from one failure to the next,
-- and it is at least the configured one or 15 minutes, whichever is less.
pub backoff_bounds :
    (base failures : ℕ)
    → (((multiple base failures ≤ max_cooldown) × (backoff base failures ≡ multiple base failures))
        ⊎ ((max_cooldown < multiple base failures) × (backoff base failures ≡ max_cooldown)))
      × (backoff base failures ≤ backoff base (suc failures))
      × (backoff base failures ≤ max_cooldown)
      × (backoff base failures ≤ 16 * base)
      × ((base ≤ backoff base failures) ⊎ (max_cooldown ≤ backoff base failures))
unfolding backoff
backoff_bounds base failures = (
  rw (sym (multiple-doublings base failures)) (capped-least (base * 2 ^ doublings failures)),
  (capped_lem _ _ (mul_mono base _ _ (pow-doublings failures).2)).0,
  (capped_lem _ _ (le_refl (base * 2 ^ doublings failures))).1,
  le_trans (capped_lem _ _ (le_refl (base * 2 ^ doublings failures))).2
      (omega (arith, mul_mono base _ 16 (pow-doublings failures).1)),
  le-capped base _ (omega (arith, mul_mono base 1 _ (pow-doublings failures).0)),
)

-- the answer at `t` of an account that has just failed, with a cooldown until `until`: yes if the
-- cooldown is over and the account is not marked unavailable
abbrev pub reopened : AccountHealth → ℕ → ℕ → Bool
reopened s until t = not s.unavailable && leb until t

admit-cooled :
    (t : ℕ) (s : AccountHealth)
    → (s.failures == 0) ≡ false
    → s.probing ≡ false
    → (admit t s).1 ≡ reopened s s.cooldown_until t
unfolding admit
admit-cooled t s failed idle = ground arith

admit-cooling : (t : ℕ) (s : AccountHealth) → t < s.cooldown_until → admit t s ≡ (s, false)
unfolding admit
admit-cooling t s early = ground arith

-- Questions during a cooldown leave the account alone, and the next one is answered as if they were
-- not asked.
cooled-answers :
    (id now d t : ℕ) (s : AccountHealth) (ts : List ℕ) (h : Tracker)
    → h id ≡ some s
    → s.cooldown_until ≡ now + d
    → During now d ts
    → answers id (ts ++ (t ∷ [])) h ≡ all_false ts ++ ((admit t s).1 ∷ [])
unfolding answers
cooled-answers id now d t s [] h e until during = rw (available-some id t h s e) refl
cooled-answers id now d t s (x ∷ ts) h e until during =
    rw (available-some id x h s e, admit-cooling x s (omega (arith, until, during.0.1)))
      (ap (◌∷◌ false) (
        cooled-answers id now d t s ts (update h id (some s)) (update_at_self h id s) until
          during.1))

-- A failure closes the account for the whole cooldown of its new count of failures, and for no longer,
-- and a failure with a given cooldown closes it for exactly that: however often it is asked for during
-- the cooldown, it is refused each time, and at a later question, at any time, it is given out exactly
-- if the cooldown is over and the account is not marked unavailable.
pub fail_closes :
    (id base d now t : ℕ) (msg : Bytes) (h : Tracker) (ts us : List ℕ)
    → During now (backoff base ((or_new (h id)).failures + 1)) ts
    → During now d us
    → (answers id (ts ++ (t ∷ [])) (fail id base msg now h).0
        ≡ all_false ts
          ++ (reopened (or_new (h id)) (now + backoff base ((or_new (h id)).failures + 1)) t ∷ []))
      × (answers id (us ++ (t ∷ [])) (fail_for id d msg now h).0
          ≡ all_false us ++ (reopened (or_new (h id)) (now + d) t ∷ []))
unfolding fail fail_for cool
fail_closes id base d now t msg h ts us r q = (closed _ ts r, closed d us q)
  where
    closed :
        (e : ℕ) (xs : List ℕ)
        → During now e xs
        → answers id (xs ++ (t ∷ [])) (update h id (some (cool now e msg (or_new (h id)))))
          ≡ all_false xs ++ (reopened (or_new (h id)) (now + e) t ∷ [])
    closed e xs r =
        let s = cool now e msg (or_new (h id)) in
        cooled-answers id now e t s xs (update h id (some s)) (update_at_self h id s) refl r
        ∙ ap (λ b. all_false xs ++ (b ∷ [])) (admit-cooled t s (ground arith) refl)
