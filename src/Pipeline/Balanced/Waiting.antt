-- ===== src/Pipeline/Balanced/Waiting.antt =====
-- The slots of a request between `acquire` and the function that it returns, with the wait at the
-- gate, in internal/gateway/handler.go.
use yzapi.Base.{◌≡◌, ◌⊎◌, refl, ap, ◌∙◌, inl, inr, Bool-cases, ◌&&◌, none, some}
use yzapi.Base.Int.{plus_minus, pos, ◌+ℤ◌, positive, leb_ℤ}
use yzapi.Errors.{GatewayError, err_gateway_busy, err_queue_timeout}
use yzapi.Limiter.Counter.{current}
use yzapi.Limiter.Gate.{Gate, has_room}
use yzapi.Limiter.Gate as Gates
use yzapi.Pipeline.{Server}
use yzapi.Pipeline.Handle.{wait, take_slots}
use yzapi.Slots.{Shared, Caller, Answer, holds, fails, acquire, release_all}
use yzapi.Slots.Held.{SameCounts, Settled, acquire_settles}

-- A wait that is over either fails and leaves the gate alone, or takes one slot of it.
wait_cases :
    (g : Gate)
    → ((e : GatewayError) × (wait (Gates.enter g) ≡ (g, some e)))
      ⊎ ((h : Gate) × (wait (Gates.enter g) ≡ (h, none)) × (Gates.release h ≡ g))
unfolding wait Gates.enter Gates.poll Gates.release
wait_cases g = elim (Bool-cases (has_room g)) [
  | inl e ↦ inr (
    record g { inflight = g.inflight +ℤ pos 1 },
    rw e refl,
    ap (λ n. record g { inflight = n }) (plus_minus g.inflight (pos 1)),
  )
  | inr e ↦ elim (Bool-cases (positive g.queue && leb_ℤ g.queue g.waiting)) [
    | inl full ↦ inl (err_gateway_busy, rw (e, full) refl)
    | inr more ↦ inl (
      err_queue_timeout,
      rw (e, more, e)
          (ap (λ n. (record g { waiting = n }, some err_queue_timeout))
            (plus_minus g.waiting (pos 1))),
    )
  ]
]

-- The slots of `s`.
abbrev pub SameSlots : Shared → Shared → Type 0
SameSlots s t = (t.gate ≡ s.gate) × SameCounts s t

pub slots_at : {u v : Shared} → u ≡ v → (w : Shared) → SameSlots u w → SameSlots v w
slots_at e w (gate, (groups, keys)) = (
  gate ∙ ap (λ x. x.gate) e,
  (
    (λ id. groups id ∙ ap (λ x. current x.groups id) e),
    λ id. keys id ∙ ap (λ x. current x.apikeys id) e,
  ),
)

unfoldable pub Taken : Caller → Shared → Shared × Answer → Type 0
Taken c s (t, fails e) = SameSlots s t
Taken c s (t, holds) = SameSlots s (release_all c t)

module _ (c : Caller) (s : Shared) (h : Gate) (e : Gates.release h ≡ s.gate) where
  Settled-Taken : (x : Shared × Answer) → Settled c (record s { gate = h }) x → Taken c s x
  unfolding Taken
  Settled-Taken (t, fails why) (gate, same) = (gate ∙ e, same)
  Settled-Taken (t, holds) (kept, same, gate) = (gate ∙ e, same)

-- The state in which the slots are asked for changes in nothing else.
unfoldable pub Took : Caller → Server → Server × Answer → Type 0
unfolding Taken
Took c s (s', a) = (s' ≡ record s { shared = s'.shared }) × Taken c s.shared (s'.shared, a)

pub take_slots-Took : (c : Caller) (s : Server) → Took c s (take_slots c s)
unfolding Took Taken take_slots acquire
take_slots-Took c s = elim (wait_cases s.shared.gate) [
  | inl (e, w) ↦ rw (w, take_slots) (refl, (refl, ((λ id. refl), λ id. refl)))
  | inr (h, w, back) ↦
      rw (w, take_slots)
        (refl, Settled-Taken c s.shared h back _ (acquire_settles c (record s.shared { gate = h })))
]
