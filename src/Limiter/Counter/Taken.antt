-- ===== src/Limiter/Counter/Taken.antt =====
-- Slots taken from and given back to the counters of internal/gateway/limiter.go.
use native.Mathlib.Decide.{ℕ_discrete}
use yzapi.Base.{ℕ, ◌≡◌, ◌⊎◌, refl, ◌∙◌, ap, subst, inl, inr, true, false, ◌&&◌, Bool-cases, arith}
use yzapi.Base.Int.{plus_minus, ℤ, pos, positive, leb_ℤ, ◌+ℤ◌, ◌-ℤ◌}
use yzapi.Limiter.Counter.{Counter, CounterMap, get, store, current, try_acquire, release, free}

pub current-store_self : (m : CounterMap) (id : ℕ) (c : Counter) → current (store m id c) id ≡ c.cur
current-store_self m id c = ground arith

pub current-store_other :
    (m : CounterMap) (id other : ℕ) (c : Counter)
    → (id ≡ other → ⊥)
    → current (store m id c) other ≡ current m other
current-store_other m id other c d = ground arith

pub current-get : (m : CounterMap) (id other : ℕ) → current (get m id).0 other ≡ current m other
unfolding get
current-get m id other = elim (ℕ_discrete id other) [
  | yes e ↦ subst (λ x. current (get m id).0 x ≡ current m x) e (ground arith)
  | no d ↦ ground arith
]

pub get-current : (m : CounterMap) (id : ℕ) → (get m id).1.cur ≡ current m id
unfolding get
get-current m id = refl

-- a slot that is refused
pub current_unchanged :
    (m : CounterMap) (id other : ℕ)
    → current (store (get m id).0 id (get m id).1) other ≡ current m other
current_unchanged m id other = elim (ℕ_discrete id other) [
  | yes e ↦
      subst (λ x. current (store (get m id).0 id (get m id).1) x ≡ current m x) e
        (current-store_self (get m id).0 id (get m id).1 ∙ get-current m id)
  | no d ↦ current-store_other (get m id).0 id other (get m id).1 d ∙ current-get m id other
]

pub try_acquire_cases :
    (lim : ℤ) (c : Counter)
    → (try_acquire lim c ≡ (c, false))
      ⊎ (try_acquire lim c ≡ (record { cur = c.cur +ℤ pos 1 }, true))
unfolding try_acquire
try_acquire_cases lim c = elim (Bool-cases (positive lim && leb_ℤ lim c.cur)) [
  | inl e ↦ inl (rw e refl)
  | inr e ↦ inr (rw e refl)
]

-- a slot that is taken and freed
pub free-store :
    (m : CounterMap) (id other : ℕ)
    → current (free (store (get m id).0 id (record { cur = (get m id).1.cur +ℤ pos 1 })) id) other
      ≡ current m other
unfolding release
free-store m id other =
    let taken = store (get m id).0 id (record { cur = (get m id).1.cur +ℤ pos 1 }) in
    elim (ℕ_discrete id other) [
      | yes e ↦
          subst (λ x. current (free taken id) x ≡ current m x) e
            (current-store_self (get taken id).0 id (release (get taken id).1)
              ∙ ap (λ c. c -ℤ pos 1)
                  (get-current taken id
                    ∙ current-store_self (get m id).0 id _
                    ∙ ap (λ c. c +ℤ pos 1) (get-current m id))
              ∙ plus_minus (current m id) (pos 1))
      | no d ↦
          current-store_other (get taken id).0 id other (release (get taken id).1) d
          ∙ current-get taken id other
          ∙ current-store_other (get m id).0 id other _ d
          ∙ current-get m id other
    ]
