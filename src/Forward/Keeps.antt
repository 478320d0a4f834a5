-- ===== src/Forward/Keeps.antt =====
-- What every try keeps, `forward` of internal/gateway/handler.go keeps.
use yzapi.Base.{
  ℕ, suc, String, ◌≡◌, ◌≤◌, Bool, true, leb, Bool-cases, arith, refl, sym, subst, ◌⊎◌, inl, inr,
  Option, none, some, List, [], ◌∷◌, Option-cases,
}
use yzapi.Limiter.Counter.{CounterMap}
use yzapi.Health.{Tracker, available}
use yzapi.Upstream.{Proto, Upstream, pick_proto}
use yzapi.Upstream.Order.{order_upstreams}
use yzapi.Forward.{Settings, max_tries, Request, Offer, Run, Ending}
use yzapi.Forward.Branches.{declares}
use yzapi.Forward.Loop.{seize, visit, inner, outer, accounts_for, Chance, begin, gave_up, forward}

-- A visit does nothing, or only asks the health tracker, or goes on to take the account's slot.
module _ (s : Settings) (r : Request) (o : Offer) (cand : String) (up : Upstream) (run : Run)
    (Q : Run × Option Ending → Type 0) where
  abbrev pub asked : Tracker × Bool
  asked = available up.id o.asked run.tracker

  pub visit_cases :
      Q (run, none)
      → Q (record run { tracker = asked.0 }, none)
      → ((proto : Proto)
          → suc run.tries ≤ max_tries s
          → declares r up ≡ true
          → pick_proto up r.proto s.conversion ≡ some proto
          → Q (seize s r o cand up proto (record run { tracker = asked.0 })))
      → Q (visit s r o cand up run)
  unfolding visit
  visit_cases skips asks goes = elim (Bool-cases (leb (max_tries s) run.tries)) [
    | inl e ↦ rw e skips
    | inr more ↦ rw more (elim (Bool-cases asked.1) [
      | inr e ↦ rw e asks
      | inl e ↦ rw e (elim (Bool-cases (declares r up)) [
        | inr d ↦ rw d asks
        | inl d ↦ rw d (elim (Option-cases (pick_proto up r.proto s.conversion)) [
          | inl p ↦ rw p asks
          | inr (proto, p) ↦ rw p (goes proto (ground arith) d p)
        ])
      ])
    ])
  ]

module _ (s : Settings) (r : Request) where
  inner-none :
      (offers : ℕ → Offer) (cand : String) (k : ℕ) (up : Upstream) (ups : List Upstream) (run : Run)
      → (visit s r (offers k) cand up run).1 ≡ none
      → inner s r offers cand k (up ∷ ups) run
        ≡ inner s r offers cand (suc k) ups (visit s r (offers k) cand up run).0
  unfolding inner
  inner-none offers cand k up ups run e = rw (e, inner) refl

  inner-some :
      (offers : ℕ → Offer) (cand : String) (k : ℕ) (up : Upstream) (ups : List Upstream) (run : Run)
      → (ending : Ending) → (visit s r (offers k) cand up run).1 ≡ some ending
      → inner s r offers cand k (up ∷ ups) run ≡ ((visit s r (offers k) cand up run).0, some ending)
  unfolding inner
  inner-some offers cand k up ups run ending e = rw (e, inner) refl

  abbrev first_tour : Chance → ℕ → String → Run → Run × Option Ending
  first_tour w n cand run =
      inner s r (w.offers n) cand 0 (order_upstreams (w.int_n n) (accounts_for r cand)) run

  outer-none :
      (w : Chance) (n : ℕ) (cand : String) (cands : List String) (run : Run)
      → (first_tour w n cand run).1 ≡ none
      → outer s r w n (cand ∷ cands) run ≡ outer s r w (suc n) cands (first_tour w n cand run).0
  unfolding outer
  outer-none w n cand cands run e = rw (e, outer) refl

  outer-some :
      (w : Chance) (n : ℕ) (cand : String) (cands : List String) (run : Run) (ending : Ending)
      → (first_tour w n cand run).1 ≡ some ending
      → outer s r w n (cand ∷ cands) run ≡ ((first_tour w n cand run).0, some ending)
  unfolding outer
  outer-some w n cand cands run ending e = rw (e, outer) refl

  forward-none :
      (w : Chance) (cands : List String) (h : Tracker) (m : CounterMap)
      → (outer s r w 0 cands (begin h m)).1 ≡ none
      → forward s r w cands h m
        ≡ ((outer s r w 0 cands (begin h m)).0, gave_up (outer s r w 0 cands (begin h m)).0)
  unfolding forward
  forward-none w cands h m e = rw (e, forward) refl

  forward-some :
      (w : Chance) (cands : List String) (h : Tracker) (m : CounterMap) (ending : Ending)
      → (outer s r w 0 cands (begin h m)).1 ≡ some ending
      → forward s r w cands h m ≡ ((outer s r w 0 cands (begin h m)).0, ending)
  unfolding forward
  forward-some w cands h m ending e = rw (e, forward) refl

  module _ (P : Run × Option Ending → Type 0)
      (keeps : (o : Offer) (cand : String) (up : Upstream) (run : Run)
        → P (run, none)
        → P (visit s r o cand up run)) where
    inner_keeps :
        (offers : ℕ → Offer) (cand : String) (k : ℕ) (ups : List Upstream) (run : Run)
        → P (run, none)
        → P (inner s r offers cand k ups run)
    unfolding inner
    inner_keeps offers cand k [] run p = p
    inner_keeps offers cand k (up ∷ ups) run p =
        let out = visit s r (offers k) cand up run in
        let kept : P out = keeps (offers k) cand up run p in
        elim (Option-cases out.1) [
          | inl e ↦
              subst P (sym (inner-none offers cand k up ups run e))
                (inner_keeps offers cand (suc k) ups out.0 (subst (λ x. P (out.0, x)) e kept))
          | inr (ending, e) ↦
              subst P (sym (inner-some offers cand k up ups run ending e))
                (subst (λ x. P (out.0, x)) e kept)
        ]

    outer_keeps :
        (w : Chance) (n : ℕ) (cands : List String) (run : Run)
        → P (run, none)
        → P (outer s r w n cands run)
    unfolding outer
    outer_keeps w n [] run p = p
    outer_keeps w n (cand ∷ cands) run p =
        let out = first_tour w n cand run in
        let kept : P out =
          inner_keeps (w.offers n) cand 0 (order_upstreams (w.int_n n) (accounts_for r cand)) run
            p in
        elim (Option-cases out.1) [
          | inl e ↦
              subst P (sym (outer-none w n cand cands run e))
                (outer_keeps w (suc n) cands out.0 (subst (λ x. P (out.0, x)) e kept))
          | inr (ending, e) ↦
              subst P (sym (outer-some w n cand cands run ending e))
                (subst (λ x. P (out.0, x)) e kept)
        ]

    abbrev pub Kept : Run × Ending → Type 0
    Kept (run, ending) = (P (run, none) × (ending ≡ gave_up run)) ⊎ P (run, some ending)

    -- It holds of what `forward` leaves, with the ending of the loops if they have one.
    pub forward_keeps :
        (w : Chance) (cands : List String) (h : Tracker) (m : CounterMap)
        → P (begin h m, none)
        → Kept (forward s r w cands h m)
    forward_keeps w cands h m p =
        let out = outer s r w 0 cands (begin h m) in
        let kept : P out = outer_keeps w 0 cands (begin h m) p in
        elim (Option-cases out.1) [
          | inl e ↦
              subst Kept (sym (forward-none w cands h m e))
                (inl (subst (λ x. P (out.0, x)) e kept, refl))
          | inr (ending, e) ↦
              subst Kept (sym (forward-some w cands h m ending e))
                (inr (subst (λ x. P (out.0, x)) e kept))
        ]
