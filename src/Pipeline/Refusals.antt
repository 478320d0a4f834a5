-- ===== src/Pipeline/Refusals.antt =====
-- What the call log says of a text request that internal/gateway/handler.go refuses.
use text.Mathlib.Text.{◌==◌}
use yzapi.Base.{
  ℕ, ◌<◌, ◌≤◌, ◌≡◌, ◌≢◌, ◌⊎◌, refl, inl, inr, sym, subst, true, Bool-cases, List, ◌∷◌, arith,
}
use yzapi.Base as Base
use yzapi.Errors.{GatewayError}
use yzapi.Pipeline.{
  LogResult, client_error, rate_limited, blocked, upstream_error, CallLog, Texts, Server, Incoming,
}
use yzapi.Pipeline.Balanced.{handle_text-Balanced}
use yzapi.Pipeline.Balanced.Borrow.{Sound}
use yzapi.Pipeline.Balanced.Closing.{Logged}
use yzapi.Pipeline.Finish.{Outcome, failed, class, class_of}
use yzapi.Pipeline.Handle.{handle_text}

-- The class of a status: a limit, a fault of the server's side, or of the client's.
abbrev pub Graded : ℕ → LogResult → Type 0
Graded status r =
    ((status ≡ 429) × (r ≡ rate_limited))
    ⊎ ((500 ≤ status) × (r ≡ upstream_error))
    ⊎ ((status < 500) × (status ≢ 429) × (r ≡ client_error))

-- The class of an error: blocked content, or by its status
abbrev pub Classified : GatewayError → LogResult → Type 0
Classified e r = ((e.code == "content_blocked" ≡ true) × (r ≡ blocked)) ⊎ Graded e.status r

class-Graded : (status : ℕ) → Graded status (class status)
unfolding class
class-Graded status = elim (Bool-cases (Base.◌==◌ status 429)) [
  | inl e ↦ inl (ground arith, rw e refl)
  | inr e ↦ elim (Bool-cases (Base.leb 500 status)) [
    | inl far ↦ inr (inl (ground arith, rw (e, far) refl))
    | inr near ↦ inr (inr (ground arith, (λ same. ground arith), rw (e, near) refl))
  ]
]

class_of-Classified : (e : GatewayError) → Classified e (class_of e)
unfolding class_of class
class_of-Classified e = elim (Bool-cases (e.code == "content_blocked")) [
  | inl c ↦ inl (c, rw c refl)
  | inr c ↦ inr (rw c (class-Graded e.status))
]

-- One record more, of that error
abbrev pub Refused : List CallLog → GatewayError → List CallLog → Type 0
Refused old e new = (l : CallLog) × (new ≡ l ∷ old) × (l.status ≡ e.status) × Classified e l.result

Logged-Refused :
    (old new : List CallLog) (out : Outcome) (e : GatewayError)
    → out ≡ failed e
    → Logged old new out
    → Refused old e new
Logged-Refused old new out e same logged =
    let (l, more, (status, result)) = subst (Logged old new) same logged in
    (l, more, status, subst (Classified e) (sym result) (class_of-Classified e))

-- A text request that is refused with an error adds one record to the call log, with the status of the
-- error and its class: blocked content, a limit (429), the server's side (from 500 on), or the client's
-- (below 500); the budget must not start below zero.
pub handle_text_refusals :
    (t : Texts) (i : Incoming) (s : Server) (e : GatewayError)
    → Sound s.budget
    → (handle_text t i s).1 ≡ failed e
    → Refused s.logged e (handle_text t i s).0.logged
handle_text_refusals t i s e sound out =
    Logged-Refused s.logged (handle_text t i s).0.logged (handle_text t i s).1 e out
      (handle_text-Balanced t i s sound).0.2
