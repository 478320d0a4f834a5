-- ===== src/KeyCache/Tests.antt =====
-- The key cache of internal/gateway/principal.go through a change that overlaps a lookup.
use yzapi.Base.{
  ℕ, ◌*◌, false, ◌≤◌, ◌≡◌, refl, true, Option, none, some, List, [], ◌∷◌, length, arith,
}
use yzapi.Base.Int.{pos}
use yzapi.Base.Pick.{pick}
use yzapi.KeyCache.{
  second, ApiKey, Act, changes, looks, queries, stores, look, hit_or_miss, find, invalidate, store,
  make_room, remove, keep, act, run,
}
use yzapi.KeyCache.Fresh.{Current, Fails, start, look-Current}
use yzapi.KeyCache.Size.{cache_bound}
use yzapi.KeyCache.Touch.{
  Tick, loads, swaps, load, swap, tick, new_slot, touches, Spaced, touches-Spaced,
}

abbrev key : ApiKey
key = record {
  id = 4;
  name = "ci";
  enabled = true;
  tokens_per_minute = pos 0;
  requests_per_minute = pos 0;
  expires_at = none;
  allowed_models = [];
  user = none;
}

abbrev rows : ℕ → Option ApiKey
rows h = some key

-- A lookup reads the key, and then the key is deleted.
abbrev overtaken : List Act
overtaken = looks 9 0 ∷ queries 0 0 true ∷ changes 9 none ∷ []

-- The overtaken lookup comes back, and another one reads what is there now.
abbrev afterwards : List Act
afterwards = stores 0 1 ∷ looks 9 2 ∷ queries 0 2 true ∷ stores 0 2 ∷ []

look-Current_example :
    Current
      (λ k. Fails k afterwards (invalidate (run (start rows) overtaken)))
      (run (invalidate (run (start rows) overtaken)) afterwards).rows
      9
      none
unfolding run act look hit_or_miss find keep store make_room remove invalidate pick
look-Current_example = look-Current rows overtaken afterwards 9 3 none (omega arith) tt refl

-- One failed query hides a key that is there, until the entry expires after five seconds.
abbrev unlucky : List Act
unlucky = looks 9 0 ∷ queries 0 0 false ∷ stores 0 1 ∷ []

hidden : (look 9 (5 * second) (run (start rows) unlucky)).1 ≡ some none
unfolding run act look hit_or_miss find keep store make_room remove pick
hidden = refl

cache_bound_example : length (run (start rows) overtaken).m ≤ 20000
cache_bound_example = cache_bound (start rows) overtaken (omega arith)

-- Two callers load the same value, and only the first swap succeeds.
abbrev race : List Tick
race = loads 100 ∷ loads 100 ∷ swaps 0 ∷ swaps 0 ∷ loads 130 ∷ []

one_write : (touches new_slot race).writes ≡ 100 ∷ []
unfolding touches tick load swap pick
one_write = refl

touches-Spaced_example : Spaced (touches new_slot race).last (touches new_slot race).writes
touches-Spaced_example = touches-Spaced race
