-- ===== src/KeyCache/Touch.antt =====
-- `touch` of internal/gateway/principal.go for one key: the time of the last write is loaded and then
-- swapped, and other callers may come between.
use yzapi.Base.{
  ℕ, ◌+◌, ◌≤◌, ◌≡◌, refl, inl, inr, none, some, List, [], ◌∷◌, ltb, ◌==◌, if◌then◌else◌, Bool-cases,
  Option-cases, arith,
}
use yzapi.Base.Pick.{All, All-pick, pick}

-- keyTouchInterval/time.Second
abbrev pub interval : ℕ
interval = 60

-- The slot of the key (0 in a new one), the callers between `Load` and `CompareAndSwap` with the
-- value that each has loaded and its time, and the times written to the database, newest first.
pub record Slot : Type 0 where
  pub last : ℕ
  pub pending : List (ℕ × ℕ)
  pub writes : List ℕ

abbrev pub new_slot : Slot
new_slot = record { last = 0; pending = []; writes = [] }

-- up to the test of the interval
unfoldable pub load : ℕ → Slot → Slot
load now s =
    if ltb now (s.last + interval) then s else record s { pending = (s.last, now) ∷ s.pending }

-- the swap, and the write that follows it
unfoldable pub swap : ℕ → ℕ → Slot → Slot
swap prev now s = if s.last == prev then record s { last = now; writes = now ∷ s.writes } else s

pub data Tick : Type 0 where
  loads : ℕ → Tick
  swaps : ℕ → Tick

unfoldable pub tick : Slot → Tick → Slot
tick s (loads now) = load now s
tick s (swaps i) = elim (pick i s.pending) [
  | none ↦ s
  | some (caller, others) ↦ swap caller.0 caller.1 (record s { pending = others })
]

unfoldable pub touches : Slot → List Tick → Slot
touches s [] = s
touches s (t ∷ ts) = touches (tick s t) ts

-- Each time is a minute or more after the one before it, and the newest is `last`.
abbrev pub Spaced : ℕ → List ℕ → Type 0
Spaced last [] = last ≡ 0
Spaced last (w ∷ ws) = (last ≡ w) × (v : ℕ) × (v + 60 ≤ w) × Spaced v ws

abbrev Due : ℕ × ℕ → Type 0
Due c = c.0 + interval ≤ c.1

abbrev IsPaced : Slot → Type 0
IsPaced s = All Due s.pending × Spaced s.last s.writes

load-IsPaced : (now : ℕ) (s : Slot) → IsPaced s → IsPaced (load now s)
unfolding load
load-IsPaced now s (due, spaced) = elim (Bool-cases (ltb now (s.last + interval))) [
  | inl early ↦ rw early (due, spaced)
  | inr late ↦ rw late ((ground arith, due), spaced)
]

swap-IsPaced :
    (prev now : ℕ) (s : Slot) → prev + interval ≤ now → IsPaced s → IsPaced (swap prev now s)
unfolding swap
swap-IsPaced prev now s later (due, spaced) = elim (Bool-cases (s.last == prev)) [
  | inl same ↦ rw same (due, (refl, s.last, ground arith, spaced))
  | inr lost ↦ rw lost (due, spaced)
]

tick-IsPaced : (s : Slot) (t : Tick) → IsPaced s → IsPaced (tick s t)
unfolding tick
tick-IsPaced s (loads now) p = load-IsPaced now s p
tick-IsPaced s (swaps i) (due, spaced) = elim (Option-cases (pick i s.pending)) [
  | inl e ↦ rw (e, tick) (due, spaced)
  | inr ((caller, others), e) ↦
      rw (e, tick)
        (let (later, rest) = All-pick Due i s.pending caller others e due in
          swap-IsPaced caller.0 caller.1 (record s { pending = others }) later (rest, spaced))
]

touches-IsPaced : (s : Slot) (ts : List Tick) → IsPaced s → IsPaced (touches s ts)
unfolding touches
touches-IsPaced s [] p = p
touches-IsPaced s (t ∷ ts) p = touches-IsPaced (tick s t) ts (tick-IsPaced s t p)

-- However the calls for one key interleave, the times that they write are a minute or more apart.
pub touches-Spaced :
    (ts : List Tick) → Spaced (touches new_slot ts).last (touches new_slot ts).writes
touches-Spaced ts = (touches-IsPaced new_slot ts (tt, refl)).1
