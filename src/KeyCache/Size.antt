-- ===== src/KeyCache/Size.antt =====
-- The size of the cache of internal/gateway/principal.go.
use yzapi.Base.{
  ℕ, ◌+◌, ◌≤◌, ◌<◌, inl, inr, Option, none, some, List, [], ◌∷◌, ◌==◌, length, Bool-cases, arith,
}
use yzapi.KeyCache.{
  Principal, Entry, Cache, cache_max, ttl, remove, make_room, store, invalidate, keep, Act, changes,
  invalidates, looks, queries, stores, finished, act, run,
}
use yzapi.KeyCache.Steps.{look-cases, queries-cases, stores-cases}

length-remove : (h : ℕ) (m : List Entry) → length (remove h m) ≤ length m
unfolding remove
length-remove h [] = omega arith
length-remove h (e ∷ m) = ground (arith, length-remove h m)

length-make_room : (now : ℕ) (m : List Entry) → length (make_room now m) < cache_max
unfolding make_room
length-make_room now m = ground arith

length-store : (now : ℕ) (e : Entry) (m : List Entry) → length (store now e m) ≤ cache_max
unfolding store
length-store now e m = omega (arith, length-remove e.hash (make_room now m), length-make_room now m)

-- The entries are within the maximum.
abbrev IsSmall : Cache → Type 0
IsSmall c = length c.m ≤ cache_max

finished-IsSmall :
    (now : ℕ) (h seen : ℕ) (read : Option (Option Principal)) (c : Cache)
    → IsSmall c
    → IsSmall (finished now (record { hash = h; seen = seen; read = read }) c)
unfolding keep
finished-IsSmall now h seen none c small = small
finished-IsSmall now h seen (some p) c small = elim (Bool-cases (c.gen == seen)) [
  | inl same ↦ rw same (length-store now (record { hash = h; p = p; expires = now + ttl p }) c.m)
  | inr moved ↦ rw moved small
]

act-IsSmall : (c : Cache) (a : Act) → IsSmall c → IsSmall (act c a)
unfolding act invalidate
act-IsSmall c (changes h row) small = small
act-IsSmall c invalidates small = omega arith
act-IsSmall c (looks h now) small = look-cases IsSmall h now c small small
act-IsSmall c (queries i now ok) small =
    queries-cases IsSmall c i now ok small (λ l others e. small)
act-IsSmall c (stores i now) small =
    stores-cases IsSmall c i now small (λ l others e.
      finished-IsSmall now l.hash l.seen l.read (record c { pending = others }) small)

-- The cache never holds more than 20000 entries.
pub cache_bound : (c : Cache) (acts : List Act) → length c.m ≤ 20000 → length (run c acts).m ≤ 20000
unfolding run
cache_bound c [] small = small
cache_bound c (a ∷ acts) small = cache_bound (act c a) acts (act-IsSmall c a small)
