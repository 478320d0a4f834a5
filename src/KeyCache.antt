-- ===== src/KeyCache.antt =====
-- `keyCache` of internal/gateway/principal.go. A key's hash stands for the key. `lookup` is cut where
-- it gives up the lock: it looks, then it queries the database, then it stores what it has read.
pub mod Entries
pub mod Steps
pub mod Generation
pub mod Fresh
pub mod Size
pub mod Touch
mod Tests
use yzapi.Base.{
  ℕ, ◌+◌, ◌*◌, ◌%◌, ◌^◌, String, Bool, true, false, not, ◌&&◌, Option, none, some, List, [], ◌∷◌,
  leb, ltb, ◌==◌, if◌then◌else◌, update, length,
}
use yzapi.Base.Int.{ℤ}
use yzapi.Base.Pick.{pick}

-- the rows that the query answers, `model.APIKey` with its `model.User`
pub record User : Type 0 where
  pub id : ℕ
  pub name : String
  pub role : String
  pub enabled : Bool
  pub locked : Bool
  pub group : ℕ

pub record ApiKey : Type 0 where
  pub id : ℕ
  pub name : String
  pub enabled : Bool
  pub tokens_per_minute : ℤ
  pub requests_per_minute : ℤ
  pub expires_at : Option ℕ
  pub allowed_models : List String
  pub user : Option User

-- `Principal`; the zero values of the user's fields stand for a key without a user
pub record Principal : Type 0 where
  pub key_id : ℕ
  pub key_name : String
  pub user_id : ℕ
  pub username : String
  pub user_role : String
  pub user_enabled : Bool
  pub key_enabled : Bool
  pub key_expired : Bool
  -- `none` for the models of the group; the set of allowed models as the list of them
  pub key_models : Option (List String)
  pub key_tpm : ℤ
  pub key_rpm : ℤ
  pub group_id : ℕ

abbrev no_user : User
no_user = record { id = 0; name = ""; role = ""; enabled = false; locked = false; group = 0 }

abbrev or_no_user : Option User → User
or_no_user none = no_user
or_no_user (some u) = u

-- the principal that `lookup` makes of a row
unfoldable pub principal : ℕ → ApiKey → Principal
principal now k =
    let u = or_no_user k.user in
    record {
      key_id = k.id;
      key_name = k.name;
      user_id = u.id;
      username = u.name;
      user_role = u.role;
      user_enabled = u.enabled && not u.locked;
      key_enabled = k.enabled;
      key_expired = elim k.expires_at [ none ↦ false | some t ↦ ltb t now ];
      key_models = elim k.allowed_models [ [] ↦ none | m ∷ ms ↦ some (m ∷ ms) ];
      key_tpm = k.tokens_per_minute;
      key_rpm = k.requests_per_minute;
      group_id = u.group;
    }

abbrev pub second : ℕ
second = 1_000_000_000

abbrev pub cache_max : ℕ
cache_max = 20000

abbrev pub ttl : Option Principal → ℕ
ttl none = 5 * second
ttl (some p) = 30 * second

-- `keyEntry`, under its key
pub record Entry : Type 0 where
  pub hash : ℕ
  pub p : Option Principal
  pub expires : ℕ

-- a lookup that missed: the generation that it saw, and what it has read of the database
pub record Pending : Type 0 where
  pub hash : ℕ
  pub seen : ℕ
  pub read : Option (Option Principal)

-- `keyCache`, with the lookups under way and the rows of the database
pub record Cache : Type 0 where
  pub m : List Entry
  pub gen : ℕ
  pub pending : List Pending
  pub rows : ℕ → Option ApiKey

-- the entry of a key
unfoldable pub find : ℕ → List Entry → Option Entry
find h [] = none
find h (e ∷ es) = if e.hash == h then some e else find h es

-- `delete(c.m, k)` for the entries that have expired
unfoldable pub sweep : ℕ → List Entry → List Entry
sweep now [] = []
sweep now (e ∷ es) = let rest = sweep now es in if ltb e.expires now then rest else e ∷ rest

unfoldable pub remove : ℕ → List Entry → List Entry
remove h [] = []
remove h (e ∷ es) = let rest = remove h es in if e.hash == h then rest else e ∷ rest

-- the part of `store` before `c.m[h] = e`
unfoldable pub make_room : ℕ → List Entry → List Entry
unfolding sweep
make_room now m =
    let kept = sweep now m in
    if not (leb cache_max (length m)) then m else if leb cache_max (length kept) then [] else kept

-- `store`, at the time `now`
unfoldable pub store : ℕ → Entry → List Entry → List Entry
unfolding make_room remove
store now e m = e ∷ remove e.hash (make_room now m)

-- `invalidate`
unfoldable pub invalidate : Cache → Cache
invalidate c = record c { gen = (c.gen + 1) % 2 ^ 64; m = [] }

-- the test of `lookup`, of the entry under the lock: a live one answers, otherwise a query follows
unfoldable pub hit_or_miss : ℕ → ℕ → Cache → Option Entry → Cache × Option (Option Principal)
hit_or_miss h now c none =
    (record c { pending = record { hash = h; seen = c.gen; read = none } ∷ c.pending }, none)
hit_or_miss h now c (some e) =
    if ltb now e.expires
    then (c, some e.p)
    else (record c { pending = record { hash = h; seen = c.gen; read = none } ∷ c.pending }, none)

-- `lookup` up to its query
unfoldable pub look : ℕ → ℕ → Cache → Cache × Option (Option Principal)
look h now c = hit_or_miss h now c (find h c.m)

-- the query, at the time `now`; `ok` says that the database answered. The code tells a query that
-- fails from a missing row nowhere: `p` stays nil and is kept as long as for an unknown key.
abbrev pub answer : ℕ → (ok : Bool) → Option ApiKey → Option Principal
answer now false row = none
answer now true none = none
answer now true (some k) = some (principal now k)

-- `if c.gen == gen { c.store(...) }`
unfoldable pub keep : ℕ → Pending → Option Principal → Cache → Cache
unfolding store
keep now l p c =
    if c.gen == l.seen
    then record c { m = store now (record { hash = l.hash; p = p; expires = now + ttl p }) c.m }
    else c

-- One step: the database changes a row, or the cache is invalidated, or a lookup begins, queries (with
-- an answer or an error of the database) or stores. A lookup that has not queried yet does not store.
pub data Act : Type 0 where
  changes : ℕ → Option ApiKey → Act
  invalidates : Act
  looks : ℕ → ℕ → Act
  queries : ℕ → ℕ → (ok : Bool) → Act
  stores : ℕ → ℕ → Act

abbrev pub finished : ℕ → Pending → Cache → Cache
finished now l c = elim l.read [ none ↦ c | some p ↦ keep now l p c ]

unfoldable pub act : Cache → Act → Cache
unfolding look invalidate
act c (changes h row) = record c { rows = update c.rows h row }
act c invalidates = invalidate c
act c (looks h now) = (look h now c).0
act c (queries i now ok) = elim (pick i c.pending) [
  | none ↦ c
  | some (l, others) ↦ record c {
    pending = record l { read = some (answer now ok (c.rows l.hash)) } ∷ others;
  }
]
act c (stores i now) = elim (pick i c.pending) [
  | none ↦ c
  | some (l, others) ↦ finished now l (record c { pending = others })
]

unfoldable pub run : Cache → List Act → Cache
run c [] = c
run c (a ∷ rest) = run (act c a) rest
