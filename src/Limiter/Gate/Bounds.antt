-- ===== src/Limiter/Gate/Bounds.antt =====
-- The limits of the gate of internal/gateway/limiter.go, while they are not changed.
use yzapi.Base.{ℕ, ◌+◌, ◌≤◌, ◌<◌, ◌≡◌, refl, inl, inr, List, [], ◌∷◌, arith}
use yzapi.Base.Int.{pos, ◌≤ℤ◌}
use yzapi.Limiter.Gate.Schedule.{System, Act, configures, init, act, run}
use yzapi.Limiter.Gate.Wakeups.{Sound, act-Sound, run-init-Sound}

-- The act does not change the limits.
abbrev pub IsTraffic : Act → Type 0
IsTraffic (configures limit queue) = ⊥
IsTraffic a = Unit {0}

abbrev pub IsSteady : List Act → Type 0
IsSteady [] = Unit {0}
IsSteady (a ∷ rest) = IsTraffic a × IsSteady rest

record Within (limit queue : ℕ) (s : System) : Type 0 where
  same_limit : s.gate.limit ≡ pos limit
  same_queue : s.gate.queue ≡ pos queue
  slots : s.holders ≤ limit
  line : s.awake + s.asleep ≤ queue

module _ (limit queue : ℕ) (limited : 0 < limit) (bounded : 0 < queue) where
  act-Within :
      (s : System) (a : Act)
      → IsTraffic a
      → Sound s
      → Within limit queue s
      → Within limit queue (act s a)
  unfolding act
  act-Within s (configures l q) steady v w = absurd steady
  act-Within s _ steady v w = ground arith

  run-Within :
      (s : System) (acts : List Act)
      → IsSteady acts
      → Sound s
      → Within limit queue s
      → Within limit queue (run s acts)
  unfolding run
  run-Within s [] steady v w = w
  run-Within s (a ∷ rest) steady v w =
      run-Within (act s a) rest steady.1 (act-Sound s a v) (act-Within s a steady.0 v w)

start_Sound : {limit queue : ℕ} → Sound (init (pos limit) (pos queue))
start_Sound = record { inflight = refl; waiting = refl; woken = inr (inl refl) }

-- While positive limits stay as they are, no interleaving takes more slots than `limit` or lets
-- more callers wait than `queue`.
gate_bounds :
    (limit queue : ℕ) (acts : List Act)
    → 0 < limit
    → 0 < queue
    → IsSteady acts
    → let s = run (init (pos limit) (pos queue)) acts in
      (s.gate.inflight ≤ℤ pos limit) × (s.gate.waiting ≤ℤ pos queue)
gate_bounds limit queue acts limited bounded steady =
    let v = run-init-Sound (pos limit) (pos queue) acts in
    let w =
      run-Within limit queue limited bounded (init (pos limit) (pos queue)) acts steady start_Sound
        (record {
          same_limit = refl;
          same_queue = refl;
          slots = omega arith;
          line = omega arith;
        }) in
    (ground (arith, v, w), ground (arith, v, w))

-- However the callers are interleaved, the counts of the gate are those of the callers who hold a slot and
-- who wait, and a sleeper beside a free slot has a wakeup on its way; and no more hold a slot than the limit
-- allows, and no more wait than the queue holds. Limit and queue are positive and stay as they are.
pub gate_holds :
    (limit queue : ℕ) (acts : List Act)
    → 0 < limit
    → 0 < queue
    → IsSteady acts
    → let s = run (init (pos limit) (pos queue)) acts in
      Sound s × (s.gate.inflight ≤ℤ pos limit) × (s.gate.waiting ≤ℤ pos queue)
gate_holds limit queue acts limited bounded steady =
    let (slots, line) = gate_bounds limit queue acts limited bounded steady in
    (run-init-Sound (pos limit) (pos queue) acts, slots, line)
