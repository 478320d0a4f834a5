-- ===== src/Pipeline/Route.antt =====
-- `candidates` and the content check of `handleTextWith`, in internal/gateway/handler.go.
use Prim.Native.String as Text
use text.Mathlib.Text.{◌==◌}
use yzapi.Base.{
  ℕ, String, Bool, not, ◌&&◌, Option, none, some, List, [], ◌∷◌, Result, ok, err, if◌then◌else◌,
}
use yzapi.Base as Base
use yzapi.Errors.{GatewayError, new_err, err_compliance_down, err_content_blocked}
use yzapi.Pipeline.{Verdict, Incoming}
use yzapi.Snapshot.{ModelGroup}

-- the models of the group that a request for the virtual model is routed to
unfoldable pub routed : String → Option ModelGroup → Result GatewayError (List String)
routed label none = err (
    new_err 503 "route_unconfigured" (
      Text.◌++◌ "Smart routing is enabled but no model group is configured for '"
        (Text.◌++◌ label "' requests")))
routed label (some mg) = ok mg.models

abbrev members : String → Option ModelGroup → List String
members model none = model ∷ []
members model (some mg) = mg.models

abbrev pub route : Incoming → ℕ
route i = if Base.◌==◌ i.route_group 0 then i.simple_group else i.route_group

-- `candidates`
unfoldable pub candidates : Incoming → String → Result GatewayError (List String)
unfolding routed
candidates i model =
    if not (i.snap.virtual_model == "") && model == i.snap.virtual_model
    then routed i.route_label (i.snap.model_groups (route i))
    else ok (members model (i.snap.group_by_name model))

-- what the content check makes of a request
unfoldable pub check : Bool → Option Verdict → Option GatewayError
check block_on_failure none = none
check block_on_failure (some v) =
    if v.degraded && block_on_failure && not v.block
    then some err_compliance_down
    else if v.hit && v.block
    then some err_content_blocked
    else none
