-- ===== src/Forward/Tries.antt =====
-- How often `forward` of internal/gateway/handler.go tries, and when it finds no account at all.
use yzapi.Base.{
  refl, sym, subst, ◌∷◌, [], ◌&&◌, ℕ, suc, ◌≤◌, ◌≡◌, ◌⊎◌, ◌↔◌, inl, inr, String, Bool, true, false,
  Option, none, some, List, leb, length, length-append, Bool-cases, arith,
}
use yzapi.Health.{Tracker}
use yzapi.Limiter.Counter.{CounterMap, get, try_acquire}
use yzapi.Health.Truncate.{Bytes}
use yzapi.Upstream.{Proto, Upstream, map_model, same_proto}
use yzapi.Upstream.Retry.{retryable}
use yzapi.Forward.{
  Settings, max_tries, Request, Response, Offer, Attempt, Reply, broke, replied, Run, Ending,
  relays, relays_error, rejects, client_gone, no_upstream, all_failed,
}
use yzapi.Forward.Branches.{exchange, network_failed, refused, tried, fresh}
use yzapi.Forward.Loop.{served, concluded, built, attempt, seize, visit, Chance, gave_up, forward}
use yzapi.Forward.Keeps.{visit_cases, forward_keeps}

-- the endings that a try can bring
abbrev final : Ending → Bool
final (relays up p m d) = true
final (relays_error up p m resp) = true
final (rejects up p m resp) = true
final client_gone = true
final no_upstream = false
final (all_failed status after msg) = false

-- A status is kept as soon as there is a try, and a try that ends the loops counts.
abbrev Blank : Run → Option Ending → Type 0
Blank run none =
    ((run.tries ≡ 0) × (run.last_status ≡ 0)) ⊎ ((1 ≤ run.tries) × (1 ≤ run.last_status))
Blank run (some e) = (1 ≤ run.tries) × (final e ≡ true)

abbrev Counted : ℕ → Run × Option Ending → Type 0
Counted max (run, ending) = (length run.attempts ≡ run.tries) × (run.tries ≤ max) × Blank run ending

module _ (s : Settings) (r : Request) (o : Offer) (up : Upstream) (rec : Attempt) (max : ℕ) where
  -- a run whose try is counted and not yet recorded
  abbrev Open : Run → Type 0
  Open run = (suc (length run.attempts) ≡ run.tries) × (run.tries ≤ max)

  recorded : (run : Run) (a : Attempt) → Open run → length (tried run a) ≡ run.tries
  recorded run a h = omega (arith, length-append run.attempts (a ∷ []), h.0)

  served-Counted :
      (resp : Response) (drop : Bool) (run : Run)
      → Open run
      → Counted max (served o up rec resp drop run)
  unfolding served
  served-Counted resp drop run h = (recorded run _ h, h.1, (omega arith, λ i. true))

  refused-Counted :
      (resp : Response) (run : Run)
      → 300 ≤ resp.status
      → Open run
      → Counted max (refused s r o up rec resp run)
  unfolding refused
  refused-Counted resp run high h = elim (Bool-cases (retryable resp.status)) [
    | inl e ↦ rw e (recorded run _ h, h.1, inr (omega arith, omega arith))
    | inr e ↦ rw e (elim (Bool-cases (same_proto rec.protocol r.proto && resp.valid_json)) [
      | inl raw ↦ rw raw (recorded run _ h, h.1, (omega arith, λ i. true))
      | inr raw ↦ rw raw (recorded run _ h, h.1, (omega arith, λ i. true))
    ])
  ]

  network_failed-Counted :
      (message : Bytes) (sent unsent : Bool) (run : Run)
      → Open run
      → Counted max (network_failed s o up rec message sent unsent run)
  unfolding network_failed
  network_failed-Counted message sent unsent run h = elim (Bool-cases o.left) [
    | inl e ↦ rw e (recorded run _ h, h.1, (omega arith, λ i. true))
    | inr e ↦ rw e (recorded run _ h, h.1, inr (omega arith, omega arith))
  ]

  concluded-Counted :
      (answer : Reply × Bool) (run : Run)
      → Open run
      → Counted max (concluded s r o up rec answer run)
  unfolding concluded
  concluded-Counted (broke message sent unsent, drop) run h =
      network_failed-Counted message sent unsent run h
  concluded-Counted (replied resp, drop) run h = elim (Bool-cases (leb 300 resp.status)) [
    | inl e ↦ rw e (refused-Counted resp run (ground arith) h)
    | inr e ↦ rw e (served-Counted resp drop run h)
  ]

  built-Counted :
      (refusal : Option Bytes) (run : Run) → Open run → Counted max (built s r o up rec refusal run)
  unfolding built
  built-Counted none run h = concluded-Counted (exchange o) run h
  built-Counted (some err) run h = (recorded run _ h, h.1, inr (omega arith, omega arith))

abbrev Limited : Settings → Run × Option Ending → Type 0
Limited s = Counted (max_tries s)

module _ (s : Settings) (r : Request) (o : Offer) (cand : String) (up : Upstream) where
  seize-Counted :
      (proto : Proto) (run : Run)
      → suc run.tries ≤ max_tries s
      → Limited s (run, none)
      → Limited s (seize s r o cand up proto run)
  unfolding seize attempt
  seize-Counted proto run room h =
      let m = get run.accounts up.id in
      elim (Bool-cases (try_acquire up.max_concurrency m.1).1) [
        | inl e ↦ rw e (
            built-Counted s r o up (fresh up proto (map_model up cand)) (max_tries s) o.refusal _
              (omega arith, room))
        | inr e ↦ rw e h
      ]

  visit-Counted : (run : Run) → Limited s (run, none) → Limited s (visit s r o cand up run)
  visit-Counted run h =
      visit_cases s r o cand up run (Limited s) h h
        (λ proto room d p. seize-Counted proto (record run { tracker = _ }) room h)

-- what is counted at the end
abbrev Judged : Settings → Run × Ending → Type 0
Judged s (run, ending) =
    (length run.attempts ≤ max_tries s) × ((ending ≡ no_upstream) ↔ (length run.attempts ≡ 0))

final_present : (ending : Ending) → final ending ≡ true → ending ≡ no_upstream → ⊥
final_present ending e absent = ground arith

gave_up_present : (run : Run) → 1 ≤ run.last_status → gave_up run ≡ no_upstream → ⊥
unfolding gave_up
gave_up_present run h absent = ground arith

gave_up_absent : (run : Run) → run.last_status ≡ 0 → gave_up run ≡ no_upstream
unfolding gave_up
gave_up_absent run h = ground arith

gave_up-Judged : (s : Settings) (run : Run) → Limited s (run, none) → Judged s (run, gave_up run)
gave_up-Judged s run (size, few, inl (blank, quiet)) =
    (omega arith, ((λ e. omega arith), λ e. gave_up_absent run quiet))
gave_up-Judged s run (size, few, inr (one, status)) =
    (omega arith, ((λ e. absurd (gave_up_present run status e)), λ e. absurd (omega arith)))

ended-Judged :
    (s : Settings) (run : Run) (ending : Ending)
    → Limited s (run, some ending)
    → Judged s (run, ending)
ended-Judged s run ending (size, few, (one, last)) =
    (omega arith, ((λ e. absurd (final_present ending last e)), λ e. absurd (omega arith)))

-- `forward` tries at most as many accounts as the settings allow, and it answers that no account is
-- available exactly when it has tried none.
pub forward_tries :
    (s : Settings) (r : Request) (w : Chance) (cands : List String) (h : Tracker) (m : CounterMap)
    → (length (forward s r w cands h m).0.attempts ≤ max_tries s)
      × (((forward s r w cands h m).1 ≡ no_upstream)
          ↔ (length (forward s r w cands h m).0.attempts ≡ 0))
forward_tries s r w cands h m =
    elim (forward_keeps s r (Limited s) (λ o cand up run. visit-Counted s r o cand up run) w cands h
      m (refl, omega arith, inl (refl, refl))) [
        | inl (counted, e) ↦
            subst (λ x. Judged s ((forward s r w cands h m).0, x)) (sym e)
              (gave_up-Judged s (forward s r w cands h m).0 counted)
        | inr counted ↦
            ended-Judged s (forward s r w cands h m).0 (forward s r w cands h m).1 counted
      ]
