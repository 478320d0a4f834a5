-- ===== src/Pipeline/Guards.antt =====
-- What a request has passed when `prepare` of internal/gateway/handler.go lets it through.
use text.Mathlib.Text.{starts_with}
use yzapi.Base.{◌≡◌, ◌≢◌, ◌⊎◌, true, false, String, Option, none, some, ok, arith}
use yzapi.KeyCache.{Principal}
use yzapi.Limiter.Budget.{Budget}
use yzapi.Pipeline.{Texts, Server, Headers, Incoming, Request, parsed}
use yzapi.Pipeline.Auth.{key_of, vet}
use yzapi.Pipeline.Prepare.{api_type, group_allows, key_allows, admit_rates}
use yzapi.Quota.{exceeded}
use yzapi.Snapshot.{Snapshot, Group}
use yzapi.Snapshot.Resolve.{found, resolve, same_type}
use yzapi.Upstream.{ProtoType}

-- a key that works, of a user that is not disabled
abbrev pub Valid : Principal → Type 0
Valid p = (p.key_enabled ≡ true) × (p.key_expired ≡ false) × (p.user_enabled ≡ true)

-- The request brings the key of `p`.
abbrev pub Brings : Texts → (String → Option Principal) → Headers → Principal → Type 0
Brings t find_key h p =
    (starts_with (key_of t h) "sk-" ≡ true) × (find_key (key_of t h) ≡ some p) × Valid p

-- `g` is an enabled group that is the principal's own or the default one.
abbrev pub Assigned : Snapshot → Principal → Group → Type 0
Assigned snap p g =
    (g.enabled ≡ true) × ((snap.groups p.group_id ≡ some g) ⊎ (snap.default_group ≡ some g))

vet-Valid : (x : Option Principal) (p : Principal) → vet x ≡ ok p → (x ≡ some p) × Valid p
unfolding vet
vet-Valid none p e = ground arith
vet-Valid (some q) p e = ground arith

module _ (t : Texts) (i : Incoming) (p : Principal) (g : Group) where
  -- `asked` is the name in the path of the request, or, where the path has none, the one in its body,
  -- without the white space around it; it is not empty.
  abbrev pub Asks : String → Type 0
  Asks asked =
      (asked ≢ "")
      × (((i.path_model ≢ "") × (asked ≡ t.trim i.path_model))
          ⊎ ((i.path_model ≡ "")
              × (in_body : String) × (i.body ≡ parsed in_body)
              × (asked ≡ t.trim in_body)))

  -- The model is what the name that the request asks for resolves to, and group and key may use it.
  abbrev pub MayUse : String → Type 0
  MayUse m =
      (asked : String) × (mt : ProtoType) × Asks asked
      × (resolve t.lower i.snap asked (some (api_type t i)) ≡ found m (some mt))
      × (same_type mt (api_type t i) ≡ true)
      × (group_allows i.snap g m ≡ true)
      × (key_allows p m ≡ true)

  -- The quota and both rates have room.
  abbrev pub HasRoom : Server → Type 0
  HasRoom s =
      (exceeded g.id g.token_quota s.quota ≡ false) × ((admit_rates t i p g s.rates).1 ≡ none)

  -- `req` is that of `p` and `g`, for a model that they may use.
  abbrev pub Allowed : Request → Type 0
  Allowed req = (req.principal ≡ some p) × (req.group ≡ some g) × MayUse req.model

module _ (t : Texts) (i : Incoming) (s : Server) where
  -- A request that is let through.
  abbrev pub Granted : Request → Type 0
  Granted req =
      (p : Principal) × (g : Group) × Brings t i.find_key i.headers p
      × Assigned i.snap p g
      × Allowed t i p g req
      × HasRoom t i p g s
