-- ===== src/Snapshot/Resolve/Sound.antt =====
-- What a resolved name is, in internal/gateway/snapshot.go.
use yzapi.Base.{
  String, ◌≡◌, ◌⊎◌, ◌≢◌, refl, subst, inl, inr, Bool, true, false, not, ◌&&◌, Option, some, List,
  [], ◌∷◌, ◌++◌, Bool-cases, Option-cases, List-cases, arith,
}
use yzapi.Base.Int.{pos, ltb_ℤ, eq_ℤ}
use yzapi.Base.Pick.{All, Exists}
use text.Mathlib.Text.{◌==◌}
use yzapi.Upstream.{ProtoType}
use yzapi.Snapshot.{Snapshot}
use yzapi.Snapshot.Resolve.{
  Resolution, found, unknown, ambiguous, Try, hit, missed, doubled, lookup, Candidate, Best, add,
  qualifies, candidate, scan, no_match, pass, wanted, settle, try, or_else, resolve_versions,
  resolve_latest, is_latest, without_latest, bare, resolve,
}

-- Every name that `lowerName` stands for is configured.
abbrev pub Named : Snapshot → Type 0
Named s = All (λ e. (t : ProtoType) × (s.model_type e.1 ≡ some t)) s.lower_name

-- A configured model, with its type
abbrev pub Configured : Snapshot → String → Option ProtoType → Type 0
Configured s c t = (u : ProtoType) × (t ≡ some u) × (s.model_type c ≡ some u)

-- The client's own name, for accounts that take any name of a wanted type
abbrev pub Passed : Snapshot → String → List ProtoType → String → Option ProtoType → Type 0
Passed s name types c t = (c ≡ name) × Exists (λ u. (t ≡ some u) × (s.passthrough u ≢ [])) types

abbrev pub Served : Snapshot → String → Option ProtoType → Resolution → Type 0
Served s name want (found c t) = Configured s c t ⊎ Passed s name (wanted want) c t
Served s name want unknown = Unit
Served s name want ambiguous = Unit

lookup-Configured :
    (s : Snapshot) (l : String) (m : List (String × String)) (c : String)
    → lookup l m ≡ some c
    → All (λ e. (t : ProtoType) × (s.model_type e.1 ≡ some t)) m
    → (t : ProtoType) × (s.model_type c ≡ some t)
unfolding lookup
lookup-Configured s l [] c e all = absurd (ground arith)
lookup-Configured s l ((k, d) ∷ m) c e all = elim (Bool-cases (k == l)) [
  | inl here ↦
      let same : d ≡ c = ground arith in
      subst (λ x. (t : ProtoType) × (s.model_type x ≡ some t)) same all.0
  | inr later ↦ lookup-Configured s l m c (ground arith) all.1
]

-- Every candidate is configured.
abbrev AllNamed : Snapshot → List Candidate → Type 0
AllNamed s = All (λ c. (t : ProtoType) × (s.model_type c.name ≡ some t))

AllNamed-append :
    (s : Snapshot) (cs : List Candidate) (c : Candidate)
    → AllNamed s cs
    → (t : ProtoType) × (s.model_type c.name ≡ some t)
    → AllNamed s (cs ++ (c ∷ []))
AllNamed-append s [] c all named = (named, tt)
AllNamed-append s (d ∷ cs) c all named = (all.0, AllNamed-append s cs c all.1 named)

add-AllNamed :
    (s : Snapshot) (c : Candidate) (b : Best)
    → (t : ProtoType) × (s.model_type c.name ≡ some t)
    → AllNamed s b.matches
    → AllNamed s (add c b).matches
unfolding add
add-AllNamed s c b named all = elim (Bool-cases (ltb_ℤ b.size (pos c.size))) [
  | inl longer ↦ rw longer (named, tt)
  | inr no_longer ↦ rw no_longer (elim (Bool-cases (eq_ℤ (pos c.size) b.size)) [
    | inl equal ↦ rw equal (AllNamed-append s b.matches c all named)
    | inr shorter ↦ rw shorter all
  ])
]

scan-AllNamed :
    (s : Snapshot) (want : Option ProtoType) (ln : String) (es : List (String × String)) (b : Best)
    → All (λ e. (t : ProtoType) × (s.model_type e.1 ≡ some t)) es
    → AllNamed s b.matches
    → AllNamed s (scan s want ln es b).matches
unfolding scan
scan-AllNamed s want ln [] b named all = all
scan-AllNamed s want ln (e ∷ es) b named all = elim (Bool-cases (qualifies s want ln e)) [
  | inl in_play ↦
      rw (in_play, scan)
        (scan-AllNamed s want ln es (add (candidate s e) b) named.1
          (add-AllNamed s (candidate s e) b named.0 all))
  | inr out ↦ rw (out, scan) (scan-AllNamed s want ln es b named.1 all)
]

pass-Served :
    (s : Snapshot) (name : String) (ts : List ProtoType) (c : String) (t : Option ProtoType)
    → pass s name ts ≡ found c t
    → Passed s name ts c t
unfolding pass
pass-Served s name [] c t e = absurd (ground arith)
pass-Served s name (u ∷ us) c t e = elim (List-cases (s.passthrough u)) [
  | inl empty ↦ let (same, later) = pass-Served s name us c t (ground arith) in (same, inr later)
  | inr (up, ups, some_up) ↦ (ground arith, inl (ground arith, λ none_there. ground arith))
]

settle-Served :
    (s : Snapshot) (name : String) (want : Option ProtoType) (cs : List Candidate) (ambig : Bool)
    → AllNamed s cs
    → Served s name want (settle s name want cs ambig)
unfolding settle
settle-Served s name want (c ∷ []) ambig all = elim (Bool-cases (not c.dup && not ambig)) [
  | inl only ↦ rw only (inl (all.0.0, all.0.1, all.0.1))
  | inr doubtful ↦ rw doubtful tt
]
settle-Served s name want (c ∷ c' ∷ cs) ambig all = tt
settle-Served s name want [] true all = tt
settle-Served s name want [] false all = passed (pass s name (wanted want)) refl
  where
    passed : (r : Resolution) → pass s name (wanted want) ≡ r → Served s name want r
    passed unknown e = tt
    passed ambiguous e = tt
    passed (found c t) e = inr (pass-Served s name (wanted want) c t e)

module _ (lower : String → String) (s : Snapshot) (named : Named s) (name : String)
    (want : Option ProtoType) where
  abbrev Fine : Try → Type 0
  Fine (hit c t) = Configured s c t
  Fine missed = Unit
  Fine doubled = Unit

  try-Fine : (n : String) → Fine (try lower s n)
  unfolding try
  try-Fine n = elim (Option-cases (s.model_type n)) [
    | inr (t, e) ↦ rw (e, try) (t, refl, e)
    | inl absent ↦
        rw (absent, try)
          (elim (Bool-cases (s.lower_dup (lower n))) [
            | inl two ↦ rw two tt
            | inr one ↦ rw one (elim (Option-cases (lookup (lower n) s.lower_name)) [
              | inl nothing ↦ rw nothing tt
              | inr (c, e) ↦ rw e (
                  let (t, typed) = lookup-Configured s (lower n) s.lower_name c e named in
                  (t, typed, typed))
            ])
          ])
  ]

  or_else-Served :
      (t : Try) (ambig : Bool) (next : Bool → Resolution)
      → Fine t
      → ((a : Bool) → Served s name want (next a))
      → Served s name want (or_else lower t ambig next)
  or_else-Served (hit c t) ambig next fine rest = inl fine
  or_else-Served missed ambig next fine rest = rest ambig
  or_else-Served doubled ambig next fine rest = rest true

  versions-Served :
      (n : String) (ambig : Bool) → Served s name want (resolve_versions lower s name want n ambig)
  unfolding resolve_versions
  versions-Served n ambig =
      settle-Served s name want (scan s want (lower n) s.lower_name no_match).matches ambig
        (scan-AllNamed s want (lower n) s.lower_name no_match named tt)

  latest-Served :
      (n : String) (ambig : Bool) → Served s name want (resolve_latest lower s name want n ambig)
  unfolding resolve_latest
  latest-Served n ambig = elim (Bool-cases (is_latest lower n)) [
    | inl yes_latest ↦
        rw (yes_latest, resolve_latest)
          (or_else-Served (try lower s (without_latest lower n)) ambig _
            (try-Fine (without_latest lower n)) (λ a. versions-Served n a))
    | inr not_latest ↦ rw (not_latest, resolve_latest) (versions-Served n ambig)
  ]

  -- In a snapshot whose lower-case names stand for configured ones, a name is resolved to a
  -- configured model, with that model's type, or stays as the client sent it where an account of a
  -- wanted type takes any name.
  pub resolve-Served : Served s name want (resolve lower s name want)
  unfolding resolve
  resolve-Served = or_else-Served (try lower s name) false _ (try-Fine name) (λ a.
      or_else-Served (try lower s (bare lower name)) a _ (try-Fine (bare lower name))
        (λ a'. latest-Served (bare lower name) a'))
