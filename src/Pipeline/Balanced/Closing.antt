-- ===== src/Pipeline/Balanced/Closing.antt =====
-- What a request leaves behind once it is prepared, in internal/gateway/handler.go.
use yzapi.Pipeline.Balanced.Waiting.{SameSlots, slots_at, Taken, Took, take_slots-Took}
use yzapi.Base.{
  ℕ, ◌≡◌, refl, sym, subst, ap, ◌∙◌, String, Option, none, some, List, ◌∷◌, Result, ok, err,
}
use yzapi.Errors.{GatewayError}
use yzapi.Forward.{
  Run, Attempt, Ending, relays, relays_error, rejects, client_gone, no_upstream, all_failed,
}
use yzapi.Forward.Loop.{forward}
use yzapi.Forward.Slots.{forward_slots}
use yzapi.Limiter.Counter.{current}
use yzapi.Pipeline.Route.{candidates}
use yzapi.Pipeline.{LogResult, CallLog, Texts, Server, Incoming, Request}
use yzapi.Pipeline.Finish.{
  call_log, class_of, forward_answer, or_relay, measured, failed, forwarded, Outcome, panicked,
  give_back, finish, fail, settle, send, to_forward,
}
use yzapi.Pipeline.Handle.{let_go, take_slots, with_answer, with_slots, send_to, checked}
use yzapi.Slots.{Caller, Answer, holds, fails, release_all}

-- What a request has borrowed from `s` when the state is `s'`.
abbrev pub Lent : Server → Request → Server → Type 0
Lent s req s' =
    (give_back req.reserved s'.budget ≡ s.budget)
    × ((id : ℕ) → current s'.accounts id ≡ current s.accounts id)
    × (s'.logged ≡ s.logged)

-- What a record says of the outcome: the status and the class of the error, or how `forward` ended. An
-- answer that is relayed speaks for itself, and nothing may panic.
abbrev Answers : Option (ℕ × LogResult) → CallLog → Type 0
Answers none l = Unit
Answers (some (status, result)) l = (l.status ≡ status) × (l.result ≡ result)

abbrev pub Tells : Outcome → CallLog → Type 0
Tells (failed e) l = (l.status ≡ e.status) × (l.result ≡ class_of e)
Tells (forwarded ending) l = Answers (forward_answer ending) l
Tells panicked l = ⊥

-- One record more, which tells the outcome
abbrev pub Logged : List CallLog → List CallLog → Outcome → Type 0
Logged old new out = (l : CallLog) × (new ≡ l ∷ old) × Tells out l

-- The end of a request, but for the slots.
abbrev pub Ended : Server → Server × Outcome → Type 0
Ended s (r, out) =
    (r.budget ≡ s.budget)
    × ((id : ℕ) → current r.accounts id ≡ current s.accounts id)
    × Logged s.logged r.logged out

-- What a request has come to, apart from its slots: those are what they were.
abbrev pub Done : Server → Server → Server × Outcome → Type 0
Done s s' (r, out) = Ended s (r, out) × (r.shared ≡ s'.shared)

-- Whatever comes of a request, memory, slots and accounts are as they were, and one record tells it.
abbrev pub Balanced : Server → Server × Outcome → Type 0
Balanced s (r, out) = Ended s (r, out) × SameSlots s.shared r.shared

module _ (t : Texts) (i : Incoming) (s : Server) (req : Request) where
  pub fail-Done : (e : GatewayError) (s' : Server) → Lent s req s' → Done s s' (fail t i e req s')
  unfolding fail finish call_log
  fail-Done e s' (budget, accounts, logged) =
      let l = call_log (record req { answer = (e.status, class_of e) }) in
      ((budget, accounts, (l, ap (λ rest. l ∷ rest) logged, (refl, refl))), refl)

  answered :
      (ending : Ending) (attempts : List Attempt)
      → Answers (forward_answer ending) (
          call_log (record req {
            attempts = attempts;
            answer = or_relay (forward_answer ending) i.relay.answer;
          }))
  unfolding call_log forward_answer
  answered (relays up proto model drop) attempts = tt
  answered (relays_error up proto model resp) attempts = (refl, refl)
  answered (rejects up proto model resp) attempts = (refl, refl)
  answered client_gone attempts = (refl, refl)
  answered no_upstream attempts = (refl, refl)
  answered (all_failed status after msg) attempts = (refl, refl)

  settle-Done :
      (run : Run) (ending : Ending) (s' : Server)
      → ((id : ℕ) → current run.accounts id ≡ current s'.accounts id)
      → Lent s req s'
      → Done s s' (settle t i req (run, ending) s')
  unfolding settle finish
  settle-Done run ending s' same (budget, accounts, logged) =
      let attempts = measured t i ending run.attempts in
      let l = call_log (record req {
        attempts = attempts;
        answer = or_relay (forward_answer ending) i.relay.answer;
      }) in
      (
        (
          budget,
          (λ id. same id ∙ accounts id),
          (l, ap (λ rest. l ∷ rest) logged, answered ending attempts),
        ),
        refl,
      )

  pub send-Done :
      (cands : List String) (s' : Server) → Lent s req s' → Done s s' (send t i req cands s')
  unfolding send
  send-Done cands s' lent =
      let out = forward i.settings (to_forward t i) i.chance cands s'.tracker s'.accounts in
      settle-Done out.0 out.1 s'
        (forward_slots i.settings (to_forward t i) i.chance cands s'.tracker s'.accounts) lent

  send_to-Done :
      (cands : Result GatewayError (List String)) (s' : Server)
      → Lent s req s'
      → Done s s' (send_to t i req cands s')
  unfolding send_to
  send_to-Done (err e) s' lent = fail-Done e s' lent
  send_to-Done (ok cands) s' lent = send-Done cands s' lent

  pub checked-Done :
      (e : Option GatewayError) (s' : Server) → Lent s req s' → Done s s' (checked t i req e s')
  unfolding checked
  checked-Done (some e) s' lent = fail-Done e s' lent
  checked-Done none s' lent = send_to-Done (candidates i req.model) s' lent

  -- with no slots taken
  pub unslotted :
      (s' : Server) (r : Server × Outcome) → s'.shared ≡ s.shared → Done s s' r → Balanced s r
  unslotted s' (r, out) e (ended, shared) = (
    ended,
    slots_at e r.shared (
      (ap (λ x. x.gate) shared),
      ((λ id. ap (λ x. current x.groups id) shared), λ id. ap (λ x. current x.apikeys id) shared),
    ),
  )

  Lent-unchanged :
      (s' s'' : Server) → s'' ≡ record s' { shared = s''.shared } → Lent s req s' → Lent s req s''
  Lent-unchanged s' s'' only (budget, accounts, logged) = (
    ap (λ x. give_back req.reserved x.budget) only ∙ budget,
    (λ id. ap (λ x. current x.accounts id) only ∙ accounts id),
    ap (λ x. x.logged) only ∙ logged,
  )

  with_answer-Balanced :
      (work : Server → Server × Outcome) (c : Caller) (s' : Server) (x : Server × Answer)
      → ((s'' : Server) → Lent s req s'' → Done s s'' (work s''))
      → s'.shared ≡ s.shared
      → Lent s req s'
      → Took c s' x
      → Balanced s (with_answer t i work c req x)
  unfolding with_answer let_go Took Taken fail finish
  with_answer-Balanced work c s' (s'', fails e) does same lent (only, slots) =
      ((fail-Done e s'' (Lent-unchanged s' s'' only lent)).0, slots_at same s''.shared slots)
  with_answer-Balanced work c s' (s'', holds) does same lent (only, slots) =
      let done = does s'' (Lent-unchanged s' s'' only lent) in
      (
        done.0,
        subst (λ x. SameSlots s.shared (release_all c x)) (sym done.1)
            (slots_at same (release_all c s''.shared) slots),
      )

  pub with_slots-Balanced :
      (work : Server → Server × Outcome) (c : Caller) (s' : Server)
      → ((s'' : Server) → Lent s req s'' → Done s s'' (work s''))
      → s'.shared ≡ s.shared
      → Lent s req s'
      → Balanced s (with_slots t i work (some c) req s')
  unfolding with_slots
  with_slots-Balanced work c s' does same lent =
      with_answer-Balanced work c s' (take_slots c s') does same lent (take_slots-Took c s')
