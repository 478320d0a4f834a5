-- ===== src/Pipeline/Balanced/Borrow.antt =====
-- What `prepare` of internal/gateway/handler.go borrows.
use yzapi.Pipeline.Balanced.Closing.{Lent}
use yzapi.Base.{
  ◌≡◌, refl, ap, inl, inr, true, String, Bool-cases, Option, none, some, Result, ok, err, arith,
}
use yzapi.Base.Int.{plus_minus, ℤ, pos, neg_part, ◌+ℤ◌, ◌-ℤ◌, positive, ltb_ℤ}
use yzapi.Errors.{GatewayError}
use yzapi.Limiter.Budget.{Budget, Place, taken, gave_up, waiting, fits}
use yzapi.Limiter.Budget as Budgets
use yzapi.KeyCache.{Principal}
use yzapi.Snapshot.{Group}
use yzapi.Quota.{exceeded}
use yzapi.Pipeline.Prepare.{
  reserve, admit_rates, admit_usage, take_body, with_group, noted, with_principal, prepare,
  read_model,
}
use yzapi.Pipeline.Auth.{choose_group, authenticate}
use yzapi.Pipeline.{Texts, Server, Incoming, Request, new_request}
use yzapi.Pipeline.Finish.{give_back}
use yzapi.Pipeline.Handle.{caller}
use yzapi.Slots.{Caller}

-- The budget does not count below zero.
abbrev pub Sound : Budget → Type 0
Sound b = neg_part b.used ≡ 0

-- memory that is asked for, at the end of the wait
Borrowed : Budget → ℤ → Budget × Place → Type 0
Borrowed b n (b', taken) = give_back n b' ≡ b
Borrowed b n (b', gave_up) = b' ≡ b
Borrowed b n (b', waiting) = b' ≡ b

give_back_self :
    (b : Budget) (n : ℤ)
    → Sound b
    → positive n ≡ true
    → give_back n (record b { used = b.used +ℤ n }) ≡ b
unfolding give_back Budgets.release
give_back_self b n sound e = elim (Bool-cases (ltb_ℤ (b.used +ℤ n -ℤ n) (pos 0))) [
  | inl below ↦ absurd (let sum = plus_minus b.used n in ground arith)
  | inr above ↦ rw (e, above) (ap (λ u. record b { used = u }) (plus_minus b.used n))
]

acquire-Borrowed : (b : Budget) (n : ℤ) → Sound b → Borrowed b n (Budgets.acquire true n b)
unfolding Borrowed Budgets.acquire Budgets.poll give_back
acquire-Borrowed b n sound = elim (Bool-cases (positive n)) [
  | inr e ↦ rw e (rw e refl)
  | inl e ↦ elim (Bool-cases (fits b n)) [
    | inr full ↦ rw (e, full) refl
    | inl room ↦ rw (e, room) (give_back_self b n sound e)
  ]
]

-- what `prepare` has come to; without an error, a caller is known
unfoldable pub Ready : Option GatewayError → Request → Type 0
Ready none req = (c : Caller) × (caller req.group req.principal ≡ some c)
Ready (some e) req = Unit

unfoldable pub Opened : Server → Server × Request × Option GatewayError → Type 0
unfolding Ready
Opened s (s', req, e) = Lent s req s' × (s'.shared ≡ s.shared) × Ready e req

ready :
    (e : Option GatewayError) (req : Request) (g : Group) (p : Principal)
    → req.group ≡ some g
    → req.principal ≡ some p
    → Ready e req
unfolding Ready
ready (some e) req g p eg ep = tt
ready none req g p eg ep = (
  record {
    group = g.id;
    key = p.key_id;
    max_concurrency = g.max_concurrency;
    key_max_concurrency = g.key_max_concurrency;
  },
  rw (eg, ep) refl,
)

module _ (t : Texts) (i : Incoming) (s : Server) (p : Principal) where
  module _ (g : Group) (req : Request) (eg : req.group ≡ some g) (ep : req.principal ≡ some p) where
    admit_usage-Opened :
        (model : Result GatewayError String) (s' : Server)
        → Lent s req s'
        → s'.shared ≡ s.shared
        → Opened s (admit_usage t i p g model req s')
    unfolding admit_usage Opened Ready
    admit_usage-Opened (err e) s' lent same = (lent, same, tt)
    admit_usage-Opened (ok model) s' lent same =
        elim (Bool-cases (exceeded g.id g.token_quota s'.quota)) [
          | inl e ↦ rw e (lent, same, tt)
          | inr e ↦ rw e (
            lent,
            same,
            ready (admit_rates t i p g s'.rates).1 (record req { model = model }) g p eg ep,
          )
        ]

module _ (t : Texts) (i : Incoming) (s : Server) where
  take_body-Opened :
      (p : Principal) (g : Group) (x : Budget × Place)
      → Borrowed s.budget (reserve i) x
      → Opened s (take_body t i p g x (record new_request { principal = some p; group = some g }) s)
  unfolding take_body Borrowed Opened Ready give_back
  take_body-Opened p g (b, taken) lent =
      admit_usage-Opened t i s p g
        (record new_request { principal = some p; group = some g; reserved = reserve i }) refl refl
        (read_model t i p g i.body) (record s { budget = b }) (lent, (λ id. refl), refl) refl
  take_body-Opened p g (b, gave_up) lent = ((lent, (λ id. refl), refl), refl, tt)
  take_body-Opened p g (b, waiting) lent = ((lent, (λ id. refl), refl), refl, tt)

module _ (t : Texts) (i : Incoming) (s : Server) where
  with_group-Opened :
      (p : Principal) (g : Result GatewayError Group)
      → Sound s.budget
      → Opened s (with_group t i p g (record new_request { principal = some p }) s)
  unfolding with_group Opened Ready give_back
  with_group-Opened p (err e) sound = ((refl, (λ id. refl), refl), refl, tt)
  with_group-Opened p (ok g) sound =
      take_body-Opened t i (noted p s) p g (Budgets.acquire true (reserve i) s.budget)
        (acquire-Borrowed s.budget (reserve i) sound)

  with_principal-Opened :
      (p : Result GatewayError Principal)
      → Sound s.budget
      → Opened s (with_principal t i p new_request s)
  unfolding with_principal Opened Ready give_back
  with_principal-Opened (err e) sound = ((refl, (λ id. refl), refl), refl, tt)
  with_principal-Opened (ok p) sound = with_group-Opened p (choose_group i.snap p) sound

  pub prepare-Opened : Sound s.budget → Opened s (prepare t i s)
  unfolding prepare
  prepare-Opened sound = with_principal-Opened (authenticate t i.find_key i.headers) sound
