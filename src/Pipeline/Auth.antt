-- ===== src/Pipeline/Auth.antt =====
-- `authenticate`, `HandleCustom`'s tests of the path, and the choice of the user group in `prepare`, in
-- internal/gateway/handler.go.
use Prim.Native.String.{len, slice}
use Prim.Native.String as Text
use text.Mathlib.Text.{◌==◌, starts_with}
use yzapi.Base.{
  String, Bool, true, false, not, ◌&&◌, ◌||◌, Option, none, some, List, [], ◌∷◌, Result, ok, err,
  if◌then◌else◌,
}
use yzapi.Errors.{
  GatewayError, err_unauthorized, err_key_disabled, err_key_expired, err_user_disabled,
  err_group_disabled,
}
use yzapi.KeyCache.{Principal}
use yzapi.Pipeline.{Texts, Headers}
use yzapi.Snapshot.{Snapshot, Group}

-- the tests of a principal
unfoldable pub vet : Option Principal → Result GatewayError Principal
vet none = err err_unauthorized
vet (some p) =
    if not p.key_enabled
    then err err_key_disabled
    else if p.key_expired
    then err err_key_expired
    else if not p.user_enabled
    then err err_user_disabled
    else ok p

module _ (t : Texts) where
  -- the key after "Bearer "
  abbrev bearer : String → String
  bearer a = if starts_with (t.lower a) "bearer " then t.trim (slice a 7 (len a)) else ""

  abbrev or_key : String → String → String
  or_key key other = if key == "" then t.trim other else key

  -- the key that a request brings
  unfoldable pub key_of : Headers → String
  key_of h =
      or_key
        (or_key (or_key (or_key (bearer h.authorization) h.x_api_key) h.api_key) h.x_goog_api_key)
        h.url_key

  -- `authenticate`
  unfoldable pub authenticate :
      (String → Option Principal) → Headers → Result GatewayError Principal
  unfolding key_of vet
  authenticate find_key h =
      let key = key_of h in
      if key == "" || not (starts_with key "sk-") then err err_unauthorized else vet (find_key key)

-- an enabled group, or the error
unfoldable pub if_enabled : Option Group → Result GatewayError Group
if_enabled none = err err_group_disabled
if_enabled (some g) = if g.enabled then ok g else err err_group_disabled

unfoldable pub or_default : Option Group → Option Group → Result GatewayError Group
unfolding if_enabled
or_default none default = if_enabled default
or_default (some g) default = if g.enabled then ok g else if_enabled default

-- the group of a principal: its own, or the default one where it is missing or disabled
unfoldable pub choose_group : Snapshot → Principal → Result GatewayError Group
unfolding or_default
choose_group snap p = or_default (snap.groups p.group_id) snap.default_group

-- `ReservedEndpointPrefixes`
abbrev pub reserved_prefixes : List String
reserved_prefixes =
    "/chat" ∷ "/responses" ∷ "/messages" ∷ "/embeddings" ∷ "/images" ∷ "/models" ∷ []

unfoldable pub under : List String → String → Bool
under [] p = false
under (r ∷ rs) p =
    let rest = under rs p in if p == r || starts_with p (Text.◌++◌ r "/") then true else rest

-- `IsReservedEndpoint`
unfoldable pub is_reserved_endpoint : String → Bool
unfolding under
is_reserved_endpoint p = under reserved_prefixes p

-- the text without the slashes at its end
unfoldable pub trim_slashes : String → String
trim_slashes String.[] = ""
trim_slashes (String.◌∷◌ c s) =
    let rest = trim_slashes s in
    if rest == "" && String.◌∷◌ c "" == "/" then "" else String.◌∷◌ c rest

-- `CustomEndpointPath`; the empty path is `none`
unfoldable pub custom_endpoint_path : String → Option String
unfolding trim_slashes
custom_endpoint_path p =
    if not (starts_with p "/v1/")
    then none
    else let rest = trim_slashes (slice p 3 (len p)) in
      if rest == "" || rest == "/" then none else some rest
