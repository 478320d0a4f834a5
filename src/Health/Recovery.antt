-- ===== src/Health/Recovery.antt =====
-- What keeps an account of internal/gateway/health.go closed, and what opens it again.
use yzapi.Base.{
  ℕ, ◌≡◌, refl, ◌∙◌, true, false, not, ◌&&◌, Option, none, some, ◌⊎◌, List, [], ◌∷◌, arith, update,
  ◌==◌, Bool-cases, Option-cases, inl, inr,
}
use yzapi.Health.Truncate.{Bytes}
use yzapi.Health.Circuit.{
  answers, all_true, Answers, answers-same, all_same-true, update_at_self, answers-none,
  available-none, available-some,
}
use yzapi.Health.{Tracker, AccountHealth, admit, available, fail, fail_for, ok, heal, reset}

-- `fail` and `fail_for` count failures, `ok` clears all that keeps an account closed, and nothing
-- makes it unavailable: an account with no failures has no cooldown.
abbrev pub IsSane : Option AccountHealth → Type 0
IsSane none = Unit {0}
IsSane (some s) =
    (s.unavailable ≡ false) × (s.failures ≡ 0 → (s.cooldown_until ≡ 0) × (s.probing ≡ false))

pub data Event : Type 0 where
  asks : ℕ → Event
  fails : ℕ → Bytes → ℕ → Event
  fails_for : ℕ → Bytes → ℕ → Event
  succeeds : Event
  resets : Event

-- what one event does to the tracker
unfoldable pub after : ℕ → Event → Tracker → Tracker
after id (asks now) h = (available id now h).0
after id (fails base msg now) h = (fail id base msg now h).0
after id (fails_for d msg now) h = (fail_for id d msg now h).0
after id succeeds h = (ok id h).0
after id resets h = reset id h

unfoldable pub history : List (ℕ × Event) → Tracker → Tracker
history [] h = h
history ((id, e) ∷ es) h = history es (after id e h)

update-IsSane :
    (h : Tracker) (id j : ℕ) (o : Option AccountHealth)
    → IsSane (h j)
    → IsSane o
    → IsSane (update h id o j)
update-IsSane h id j o old new = elim (Bool-cases (id == j)) [
  | inl same ↦ rw same new
  | inr other ↦ rw other old
]

admit-IsSane : (now : ℕ) (s : AccountHealth) → IsSane (some s) → IsSane (some (admit now s).0)
unfolding admit
admit-IsSane now s v = ground arith

available-IsSane :
    (id j now : ℕ) (h : Tracker) → ((k : ℕ) → IsSane (h k)) → IsSane ((available id now h).0 j)
available-IsSane id j now h v = elim (Option-cases (h id)) [
  | inl missing ↦ rw (available-none id now h missing) (v j)
  | inr (s, found) ↦
      rw (available-some id now h s found)
        (update-IsSane h id j _ (v j) (admit-IsSane now s (rw found at (v id))))
]

-- `ok` on a missing account, a healthy one and any other.
ok-cases :
    (id : ℕ) (h : Tracker)
    → ((h id ≡ none) × ((ok id h).0 ≡ h))
      ⊎ ((s : AccountHealth) × (h id ≡ some s) × (s.failures ≡ 0) × ((ok id h).0 ≡ h))
      ⊎ ((s : AccountHealth) × (h id ≡ some s) × ((ok id h).0 ≡ update h id (some (heal s))))
unfolding ok
ok-cases id h = elim (Option-cases (h id)) [
  | inl missing ↦ inl (missing, rw (missing, ok))
  | inr (s, found) ↦ elim (Bool-cases (s.failures == 0 && not s.unavailable)) [
    | inl healthy ↦ inr (inl (s, found, ground arith, rw (found, ok, healthy)))
    | inr sick ↦ inr (inr (s, found, rw (found, ok, sick)))
  ]
]

after-IsSane :
    (id j : ℕ) (e : Event) (h : Tracker) → ((k : ℕ) → IsSane (h k)) → IsSane (after id e h j)
unfolding after fail fail_for reset
after-IsSane id j (asks now) h v = available-IsSane id j now h v
after-IsSane id j (fails base msg now) h v = update-IsSane h id j _ (v j) (ground (arith, v id))
after-IsSane id j (fails_for d msg now) h v = update-IsSane h id j _ (v j) (ground (arith, v id))
after-IsSane id j succeeds h v = elim (ok-cases id h) [
  | inl (missing, e) ↦ rw e (v j)
  | inr (inl (s, found, z, e)) ↦ rw e (v j)
  | inr (inr (s, found, e)) ↦
      rw e (unfold heal in update-IsSane h id j _ (v j) (refl, λ z. (refl, refl)))
]
after-IsSane id j resets h v = update-IsSane h id j none (v j) tt

history-IsSane :
    (es : List (ℕ × Event)) (h : Tracker)
    → ((k : ℕ) → IsSane (h k))
    → (k : ℕ) → IsSane (history es h k)
unfolding history
history-IsSane [] h v = v
history-IsSane ((id, e) ∷ es) h v = history-IsSane es (after id e h) (λ j. after-IsSane id j e h v)

healthy-Answers :
    (id : ℕ) (s : AccountHealth) (ts : List ℕ)
    → s.unavailable ≡ false
    → s.failures ≡ 0
    → s.cooldown_until ≡ 0
    → Answers id true s ts
unfolding admit
healthy-Answers id s [] u f c = tt
healthy-Answers id s (t ∷ ts) u f c = (ground arith, healthy-Answers id s ts u f c)

-- After any history of requests, failures, successes and resets, one success closes the circuit:
-- the account is available at every later time, until its next failure.
pub ok_reopens :
    (es : List (ℕ × Event)) (id : ℕ) (ts : List ℕ)
    → let h = history es (λ k. none) in answers id ts (ok id h).0 ≡ all_true ts
unfolding heal
ok_reopens es id ts = reopens (history es (λ k. none)) (history-IsSane es (λ k. none) (λ k. tt) id)
  where
    open_again :
        (h : Tracker) (s : AccountHealth)
        → h id ≡ some s
        → s.unavailable ≡ false
        → s.failures ≡ 0
        → s.cooldown_until ≡ 0
        → answers id ts h ≡ all_true ts
    open_again h s e u f c =
        answers-same id true s ts h e (healthy-Answers id s ts u f c) ∙ all_same-true id s ts

    reopens : (h : Tracker) → IsSane (h id) → answers id ts (ok id h).0 ≡ all_true ts
    reopens h v = elim (ok-cases id h) [
      | inl (missing, e) ↦ rw e (answers-none id ts h missing)
      | inr (inl (s, found, z, e)) ↦
          let sane : IsSane (some s) = rw found at v in
          rw e (open_again h s found sane.0 z (sane.1 z).0)
      | inr (inr (s, found, e)) ↦
          rw e (open_again _ (heal s) (update_at_self h id (heal s)) refl refl refl)
    ]
