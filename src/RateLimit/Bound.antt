-- ===== src/RateLimit/Bound.antt =====
-- The requests-per-minute limit of internal/gateway/ratelimit.go, over every window of 60 seconds.
use text.Mathlib.Text.{◌==◌}
use text.Mathlib.TextEquality.{eq_iff}
use yzapi.Base.{
  ℕ, ◌+◌, ◌≤◌, ◌<◌, ◌≡◌, refl, ap, String, true, false, ◌&&◌, ◌⊎◌, not, inl, inr, Option, none,
  some, List, [], ◌∷◌, leb, arith, Bool-cases, if◌then◌else◌,
}
use yzapi.Base.Int.{ℤ, pos, pos_part, positive, leb_ℤ}
use yzapi.Errors.{GatewayError, err_rate_limited, err_token_rate_limited}
use yzapi.RateLimit.Window.{unix}
use yzapi.RateLimit.Window.Spec.{Event, spent}
use yzapi.RateLimit.Log.{
  Logs, no_logs, book, log_admit, log_add, log_step, log_run, Ordered, requests_in, tokens_in,
}
use yzapi.RateLimit.Refine.{run-eq-log_run}
use yzapi.RateLimit.{Call, admits, adds, prunes, run, new_limiter}

-- The calls for `id` in the 60 seconds that end with second `t` that were told to go on.
pub admitted_in : String → ℕ → List (ℕ × Call) → List (Option GatewayError) → ℕ
admitted_in id t ((now, admits j rpm tpm) ∷ cs) (none ∷ told) =
    (if j == id && leb t (unix now + 59) then 1 else 0) + admitted_in id t cs told
admitted_in id t (c ∷ cs) (answer ∷ told) = admitted_in id t cs told
admitted_in id t _ _ = 0

-- Every request for `id` comes with the limit `n`, and no call is later than second `t`.
abbrev pub Limited : String → ℕ → ℕ → List (ℕ × Call) → Type 0
Limited id n t [] = Unit {0}
Limited id n t ((now, admits j rpm tpm) ∷ cs) =
    (unix now ≤ t) × ((j == id) ≡ true → rpm ≡ pos n) × Limited id n t cs
Limited id n t ((now, adds j m) ∷ cs) = (unix now ≤ t) × Limited id n t cs
Limited id n t ((now, prunes m) ∷ cs) = (unix now ≤ t) × Limited id n t cs

-- Less is left of a log as the window moves on.
spent-anti : (f : Event → ℕ) (a b : ℕ) (h : List Event) → a ≤ b → spent f b h ≤ spent f a h
unfolding spent
spent-anti f a b [] le = omega arith
spent-anti f a b (e ∷ h) le = ground (arith, spent-anti f a b h le)

abbrev Within : ℕ → ℕ → List Event → Type 0
Within n last h = (t : ℕ) → last ≤ t → requests_in t h ≤ n

abbrev request : ℕ → Event
request now = record { at = unix now; reqs = 1; toks = 0 }

-- The three ways in which a request ends.
log_admit-cases :
    (logs : Logs) (j : String) (rpm tpm : ℤ) (now : ℕ)
    → ((e : GatewayError) × (log_admit logs j rpm tpm now ≡ (logs, some e)))
      ⊎ ((log_admit logs j rpm tpm now ≡ (logs, none)) × (positive rpm ≡ false))
      ⊎ ((log_admit logs j rpm tpm now ≡ (book logs j (request now), none))
          × (positive rpm && leb_ℤ rpm (pos (requests_in (unix now) (logs j))) ≡ false))
unfolding log_admit
log_admit-cases logs j rpm tpm now = elim (Bool-cases (not (positive rpm) && not (positive tpm))) [
  | inl free ↦ inr (inl (rw free, ground arith))
  | inr limited ↦
      elim (Bool-cases (positive rpm && leb_ℤ rpm (pos (requests_in (unix now) (logs j))))) [
        | inl full ↦ inl (err_rate_limited, rw (limited, full))
        | inr room ↦
            elim (Bool-cases (positive tpm && leb_ℤ tpm (pos (tokens_in (unix now) (logs j))))) [
              | inl spent_all ↦ inl (err_token_rate_limited, rw (limited, room, spent_all))
              | inr left ↦ inr (inr (rw (limited, room, left), room))
            ]
      ]
]

module _ (logs : Logs) (j id : String) (now : ℕ) where
  requests_in-book :
      (t : ℕ)
      → requests_in t (book logs j (request now) id)
        ≡ (if j == id && leb t (unix now + 59) then 1 else 0) + requests_in t (logs id)
  unfolding spent
  requests_in-book t = elim (Bool-cases (j == id)) [
    | inl same ↦ rw same (ground (arith, ap logs ((eq_iff j id).0 same)))
    | inr other ↦ rw other (omega arith)
  ]

  requests_in-tokens :
      (t m : ℕ)
      → requests_in t (book logs j (record { at = unix now; reqs = 0; toks = m }) id)
        ≡ requests_in t (logs id)
  unfolding spent
  requests_in-tokens t m = elim (Bool-cases (j == id)) [
    | inl same ↦ rw same (ground (arith, ap logs ((eq_iff j id).0 same)))
    | inr other ↦ rw other refl
  ]

  Within-book :
      (n last : ℕ) (rpm : ℤ)
      → 0 < n
      → last ≤ unix now
      → ((j == id) ≡ true → rpm ≡ pos n)
      → positive rpm && leb_ℤ rpm (pos (requests_in (unix now) (logs j))) ≡ false
      → Within n last (logs id)
      → Within n (unix now) (book logs j (request now) id)
  Within-book n last rpm limited le same_limit room k t lt = elim (Bool-cases (j == id)) [
    | inl same ↦ ground (
      arith,
      same_limit same,
      requests_in-book t,
      ap logs ((eq_iff j id).0 same),
      spent-anti (λ e. e.reqs) (unix now) t (logs j) lt,
    )
    | inr other ↦ ground (arith, requests_in-book t, k t (omega arith))
  ]

module _ (id : String) (n : ℕ) (limited : 0 < n) where
  log_run-Within :
      (t last : ℕ) (cs : List (ℕ × Call)) (logs : Logs)
      → Ordered last cs
      → Limited id n t cs
      → unix last ≤ t
      → Within n (unix last) (logs id)
      → admitted_in id t cs (log_run logs cs) + requests_in t (logs id) ≤ n
  unfolding log_run admitted_in log_step log_add
  log_run-Within t last [] logs o l le k = omega (arith, k t le)
  log_run-Within t last ((now, admits j rpm tpm) ∷ cs) logs o l le k =
      elim (log_admit-cases logs j rpm tpm now) [
        | inl (e, refused) ↦
            rw (refused) (log_run-Within t now cs logs o.1 l.2 l.0 (λ u lu. k u (omega arith)))
        | inr (inl (free, unlimited)) ↦
            rw free
              (ground (arith, log_run-Within t now cs logs o.1 l.2 l.0 (λ u lu. k u (omega arith))))
        | inr (inr (counted, room)) ↦ rw counted (
            omega (
              arith,
              requests_in-book logs j id now t,
              log_run-Within t now cs (book logs j (request now)) o.1 l.2 l.0
                  (Within-book logs j id now n (unix last) rpm limited (omega arith) l.1 room k),
            ))
      ]
  log_run-Within t last ((now, adds j m) ∷ cs) logs o l le k =
      elim (Bool-cases (not (positive m))) [
        | inl nothing ↦
            rw (nothing, log_add)
              (log_run-Within t now cs logs o.1 l.1 l.0 (λ u lu. k u (omega arith)))
        | inr something ↦
            rw (something, log_add)
              (omega (
                arith,
                requests_in-tokens logs j id now t (pos_part m),
                log_run-Within t now cs
                    (book logs j (record { at = unix now; reqs = 0; toks = pos_part m })) o.1 l.1
                    l.0
                    (λ u lu.
                      omega (
                        arith,
                        requests_in-tokens logs j id now u (pos_part m),
                        k u (omega arith),
                      )),
              ))
      ]
  log_run-Within t last ((now, prunes m) ∷ cs) logs o l le k =
      log_run-Within t now cs logs o.1 l.1 l.0 (λ u lu. k u (omega arith))

-- Whatever else arrives, at most `n` requests of a subject whose limit is `n` requests per minute
-- are let through in any 60 seconds, as long as the clock does not go back and pruning spares
-- subjects used in the last 60 seconds. The window ends with second `t`, and no call is later.
pub rpm_bound :
    (id : String) (n t : ℕ) (cs : List (ℕ × Call))
    → 0 < n
    → Ordered 0 cs
    → Limited id n t cs
    → admitted_in id t cs (run new_limiter cs) ≤ n
unfolding spent
rpm_bound id n t cs limited o l = rw (run-eq-log_run cs o) (
    omega
      (arith, log_run-Within id n limited t 0 cs no_logs o l (omega arith) (λ u lu. omega arith)))
