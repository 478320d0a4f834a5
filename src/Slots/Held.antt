-- ===== src/Slots/Held.antt =====
-- What a request holds between `acquire` and the function that it returns, in
-- internal/gateway/handler.go.
use yzapi.Base.{ℕ, ◌≡◌, ◌⊎◌, refl, inl, inr, false, none}
use yzapi.Base.Int.{ℤ, pos, positive, ◌≤ℤ◌, ◌+ℤ◌}
use yzapi.Limiter.Counter.{Counter, get, store, current}
use yzapi.Limiter.Counter.Taken.{current_unchanged, try_acquire_cases, free-store}
use yzapi.Limiter.Gate.{Gate}
use yzapi.Limiter.Gate as Gates
use yzapi.Slots.{
  Shared, Caller, key_limit, Answer, holds, fails, take_key, take_group, acquire, release_all,
}

-- The counts of `t` are those of `s`.
abbrev pub SameCounts : Shared → Shared → Type 0
SameCounts s t =
    ((id : ℕ) → current t.groups id ≡ current s.groups id)
    × ((id : ℕ) → current t.apikeys id ≡ current s.apikeys id)

-- A request that fails gives back the gate's slot and leaves the counts alone; one that holds its
-- slots has its place at the gate still, and gives everything back at the end.
abbrev pub Settled : Caller → Shared → Shared × Answer → Type 0
Settled c s (t, holds) =
    (t.gate ≡ s.gate)
    × SameCounts s (release_all c t)
    × ((release_all c t).gate ≡ Gates.release s.gate)
Settled c s (t, fails e) = (t.gate ≡ Gates.release s.gate) × SameCounts s t

-- the state in which the group has a slot more
abbrev group_taken : Caller → Shared → Shared
group_taken c s = record s {
  groups =
      store (get s.groups c.group).0 c.group
        (record { cur = (get s.groups c.group).1.cur +ℤ pos 1 });
}

take_key-Settled : (c : Caller) (s : Shared) → Settled c s (take_key c (group_taken c s))
unfolding take_key release_all
take_key-Settled c s = elim (try_acquire_cases (key_limit c) (get s.apikeys c.key).1) [
  | inl e ↦
      rw e
        (refl, ((λ id. free-store s.groups c.group id), λ id. current_unchanged s.apikeys c.key id))
  | inr e ↦
      rw e
        (refl, ((λ id. free-store s.groups c.group id), λ id. free-store s.apikeys c.key id), refl)
]

take_group-Settled : (c : Caller) (s : Shared) → Settled c s (take_group c s)
unfolding take_group
take_group-Settled c s = elim (try_acquire_cases c.max_concurrency (get s.groups c.group).1) [
  | inl e ↦ rw e (refl, ((λ id. current_unchanged s.groups c.group id), λ id. refl))
  | inr e ↦ rw e (take_key-Settled c s)
]

-- Once the gate has let a request in, `acquire` either fails, gives the gate's slot back and leaves
-- every count as it was, or holds a slot at each level until the function that it returns has given
-- all of them back.
pub acquire_settles : (c : Caller) (s : Shared) → Settled c s (acquire c none s)
unfolding acquire
acquire_settles c s = take_group-Settled c s

-- The limits that a request which holds its slots keeps to.
abbrev pub Within : ℤ → ℤ → Type 0
Within lim count = (positive lim ≡ false) ⊎ (count ≤ℤ lim)

abbrev pub Bounded : Caller → Shared × Answer → Type 0
Bounded c (t, holds) =
    Within c.max_concurrency (current t.groups c.group)
    × Within (key_limit c) (current t.apikeys c.key)
    × Within c.max_concurrency (current t.apikeys c.key)
Bounded c (t, fails e) = Unit
