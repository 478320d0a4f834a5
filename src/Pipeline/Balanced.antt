-- ===== src/Pipeline/Balanced.antt =====
-- What a request leaves behind in internal/gateway/handler.go, on every branch.
pub mod Waiting
pub mod Closing
pub mod Borrow
use yzapi.Pipeline.Balanced.Closing.{
  Lent, Balanced, fail-Done, send-Done, checked-Done, unslotted, with_slots-Balanced,
}
use yzapi.Pipeline.Balanced.Borrow.{Sound, Ready, Opened, prepare-Opened}
use yzapi.Base.{◌≡◌, refl, inl, inr, String, Bool-cases, Option, none, some, List, Result, ok, err}
use yzapi.Errors.{GatewayError, err_endpoint_not_found}
use yzapi.KeyCache.{Principal}
use yzapi.Pipeline.Prepare.{prepare}
use yzapi.Pipeline.Auth.{authenticate, custom_endpoint_path, is_reserved_endpoint}
use yzapi.Pipeline.Route.{candidates, check}
use yzapi.Pipeline.{Texts, Server, Incoming, Request, new_request}
use yzapi.Pipeline.Finish.{give_back, finish, fail, send}
use yzapi.Pipeline.Handle.{
  checked, text_from, handle_text, simple_to, simple_from, run_simple, handle_simple,
  prepare_custom, handle_endpoint, handle_path, handle_custom,
}

module _ (t : Texts) (i : Incoming) (s : Server) where
  text_from-Balanced :
      (x : Server × Request × Option GatewayError) → Opened s x → Balanced s (text_from t i x)
  unfolding text_from Opened Ready finish
  text_from-Balanced (s', req, some e) (lent, same, ready) =
      unslotted t i s req s' (fail t i e req s') same (fail-Done t i s req e s' lent)
  text_from-Balanced (s', req, none) (lent, same, (c, known)) = rw known (
      with_slots-Balanced t i s req (checked t i req (check i.block_on_failure i.verdict)) c s'
        (λ s''. checked-Done t i s req (check i.block_on_failure i.verdict) s'') same lent)

  -- However a text request ends, refused, blocked or forwarded, the memory of its body, its place at
  -- the gate and the slots of its group, its key and the accounts are given back, no missing group or
  -- principal is read, and one record goes to the call log, with the status and class of the error or
  -- of the end of `forward`; the budget must not start below zero.
  pub handle_text-Balanced : Sound s.budget → Balanced s (handle_text t i s)
  unfolding handle_text
  handle_text-Balanced sound = text_from-Balanced (prepare t i s) (prepare-Opened t i s sound)

  unopened :
      (e : GatewayError) (s' : Server) (req : Request)
      → Lent s req s'
      → s'.shared ≡ s.shared
      → Balanced s (fail t i e req s')
  unopened e s' req lent same =
      unslotted t i s req s' (fail t i e req s') same (fail-Done t i s req e s' lent)

  simple_to-Balanced :
      (cands : Result GatewayError (List String)) (s' : Server) (req : Request)
      → Opened s (s', req, none)
      → Balanced s (simple_to t i req cands s')
  unfolding simple_to Opened Ready finish
  simple_to-Balanced (err e) s' req (lent, same, ready) = unopened e s' req lent same
  simple_to-Balanced (ok cands) s' req (lent, same, (c, known)) = rw known (
      with_slots-Balanced t i s req (send t i req cands) c s' (λ s''. send-Done t i s req cands s'')
        same lent)

  simple_from-Balanced :
      (x : Server × Request × Option GatewayError) → Opened s x → Balanced s (simple_from t i x)
  unfolding simple_from run_simple Opened Ready finish
  simple_from-Balanced (s', req, some e) (lent, same, ready) = unopened e s' req lent same
  simple_from-Balanced (s', req, none) opened =
      simple_to-Balanced (candidates i req.model) s' req opened

  handle_simple-Balanced : Sound s.budget → Balanced s (handle_simple t i s)
  unfolding handle_simple
  handle_simple-Balanced sound = simple_from-Balanced (prepare t i s) (prepare-Opened t i s sound)

  prepare_custom-Opened :
      (path : String) (p : Result GatewayError Principal)
      → Sound s.budget
      → Opened s (prepare_custom t i path p s)
  unfolding prepare_custom Opened Ready give_back
  prepare_custom-Opened path (err e) sound = ((refl, (λ id. refl), refl), refl, tt)
  prepare_custom-Opened path (ok p) sound = elim (Bool-cases (i.snap.endpoints path)) [
    | inl e ↦ rw e (prepare-Opened t i s sound)
    | inr e ↦ rw e ((refl, (λ id. refl), refl), refl, tt)
  ]

  handle_endpoint-Balanced :
      (path : String) → Sound s.budget → Balanced s (handle_endpoint t i path s)
  unfolding handle_endpoint
  handle_endpoint-Balanced path sound =
      simple_from-Balanced _
        (prepare_custom-Opened path (authenticate t i.find_key i.headers) sound)

module _ (t : Texts) (i : Incoming) (s : Server) where
  handle_path-Balanced :
      (path : Option String) → Sound s.budget → Balanced s (handle_path t i path s)
  unfolding handle_path finish give_back
  handle_path-Balanced none sound =
      unopened t i s err_endpoint_not_found s new_request (refl, (λ id. refl), refl) refl
  handle_path-Balanced (some path) sound = elim (Bool-cases (is_reserved_endpoint path)) [
    | inl e ↦
        rw e (unopened t i s err_endpoint_not_found s new_request (refl, (λ id. refl), refl) refl)
    | inr e ↦ rw e (handle_endpoint-Balanced t (record i { endpoint = some path }) s path sound)
  ]

  handle_custom-Balanced : (path : String) → Sound s.budget → Balanced s (handle_custom t i path s)
  unfolding handle_custom
  handle_custom-Balanced path sound = handle_path-Balanced (custom_endpoint_path path) sound

  -- However a request for embeddings or images, or one for a custom path, known or not, ends, its memory,
  -- its place at the gate and its slots are given back, no missing group or principal is read, and one
  -- record that tells its end goes to the call log; the budget must not start below zero.
  pub other_requests-Balanced :
      (path : String)
      → Sound s.budget
      → Balanced s (handle_simple t i s) × Balanced s (handle_custom t i path s)
  other_requests-Balanced path sound =
      (handle_simple-Balanced t i s sound, handle_custom-Balanced path sound)
