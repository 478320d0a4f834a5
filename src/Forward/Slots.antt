-- ===== src/Forward/Slots.antt =====
-- The slots of the accounts in `forward` of internal/gateway/handler.go.
use yzapi.Base.{
  ℕ, ◌≡◌, refl, ◌∙◌, ap, inl, inr, leb, Option, none, some, List, String, Bool, Bool-cases,
}
use yzapi.Health.{Tracker}
use yzapi.Health.Truncate.{Bytes}
use yzapi.Limiter.Counter.{CounterMap, get, current}
use yzapi.Upstream.{Proto, Upstream, map_model}
use yzapi.Upstream.Retry.{retryable}
use yzapi.Limiter.Counter.Taken.{current_unchanged, try_acquire_cases, free-store}
use yzapi.Forward.{Settings, Request, Response, Offer, Attempt, Reply, broke, replied, Run, Ending}
use yzapi.Forward.Branches.{exchange, network_failed, refused, fresh, freed}
use yzapi.Forward.Loop.{served, concluded, built, attempt, seize, visit, Chance, forward}
use yzapi.Forward.Keeps.{visit_cases, forward_keeps}

module _ (s : Settings) (r : Request) (o : Offer) (up : Upstream) (rec : Attempt) (run : Run) where
  -- Every branch of a try frees the account's slot once.
  abbrev Freed : Run × Option Ending → Type 0
  Freed x = x.0.accounts ≡ freed up run.accounts

  refused-Freed : (resp : Response) → Freed (refused s r o up rec resp run)
  unfolding refused
  refused-Freed resp = elim (Bool-cases (retryable resp.status)) [
    | inl e ↦ rw e refl
    | inr e ↦ rw e refl
  ]

  network_failed-Freed :
      (message : Bytes) (sent unsent : Bool)
      → Freed (network_failed s o up rec message sent unsent run)
  unfolding network_failed
  network_failed-Freed message sent unsent = elim (Bool-cases o.left) [
    | inl e ↦ rw e refl
    | inr e ↦ rw e refl
  ]

  concluded-Freed : (answer : Reply × Bool) → Freed (concluded s r o up rec answer run)
  unfolding concluded served
  concluded-Freed (broke message sent unsent, drop) = network_failed-Freed message sent unsent
  concluded-Freed (replied resp, drop) = elim (Bool-cases (leb 300 resp.status)) [
    | inl e ↦ rw e (refused-Freed resp)
    | inr e ↦ rw e refl
  ]

  built-Freed : (refusal : Option Bytes) → Freed (built s r o up rec refusal run)
  unfolding built
  built-Freed none = concluded-Freed (exchange o)
  built-Freed (some err) = refl

-- The counts are those of `m`.
abbrev SameCounts : CounterMap → Run × Option Ending → Type 0
SameCounts m x = (id : ℕ) → current x.0.accounts id ≡ current m id

module _ (s : Settings) (r : Request) (o : Offer) (cand : String) (up : Upstream)
    (m : CounterMap) where
  seize-SameCounts :
      (proto : Proto) (run : Run)
      → SameCounts m (run, none)
      → SameCounts m (seize s r o cand up proto run)
  unfolding seize attempt
  seize-SameCounts proto run same id =
      elim (try_acquire_cases up.max_concurrency (get run.accounts up.id).1) [
        | inl e ↦ rw e (current_unchanged run.accounts up.id id ∙ same id)
        | inr e ↦ rw e (
            ap (λ accounts. current accounts id)
              (built-Freed s r o up (fresh up proto (map_model up cand)) _ o.refusal)
            ∙ free-store run.accounts up.id id
            ∙ same id)
      ]

  visit-SameCounts : (run : Run) → SameCounts m (run, none) → SameCounts m (visit s r o cand up run)
  visit-SameCounts run same =
      visit_cases s r o cand up run (SameCounts m) same same
        (λ proto room d p. seize-SameCounts proto _ same)

-- However `forward` ends, every account has as many requests in flight as before.
pub forward_slots :
    (s : Settings) (r : Request) (w : Chance) (cands : List String) (h : Tracker) (m : CounterMap)
    → (id : ℕ) → current (forward s r w cands h m).0.accounts id ≡ current m id
forward_slots s r w cands h m id =
    elim (forward_keeps s r (SameCounts m) (λ o cand up run. visit-SameCounts s r o cand up m run) w
      cands h m (λ id. refl)) [ inl (same, e) ↦ same id | inr same ↦ same id ]
