-- ===== src/Snapshot/Build/Named.antt =====
-- The names of a snapshot that `rebuild` of internal/gateway/snapshot.go makes.
use mathlib.Core.List.{Permᴰ}
use text.Mathlib.Text.{◌==◌}
use text.Mathlib.TextPositions.{eq_refl}
use yzapi.Base.{
  ◌>>=◌, String, ◌≡◌, refl, sym, subst, ◌∙◌, inl, inr, not, ◌&&◌, Option, none, some, List, [], ◌∷◌,
  ◌++◌, Bool-cases, Option-cases, arith,
}
use yzapi.Base.Texts.{put}
use yzapi.Base.Pick.{All, All-map}
use yzapi.Upstream.{ProtoType, Upstream, type_text}
use yzapi.Snapshot.{Snapshot, ModelGroup}
use yzapi.Snapshot.Resolve.Sound.{Named}
use yzapi.Snapshot.Build.{
  blank, assign, fold_names, add_virtual, add_model_group, add_model_groups, add_group, add_groups,
  index, assemble, rebuild,
}
use yzapi.Snapshot.File.{
  Account, Draft, among, upstream, file_mapping, file_mappings, file_account, file_accounts,
  SmartRoute, UserGroup, Rows,
}

pub rebuild-assembled :
    (lower : String → String) (walk : List String → List String) (sr : SmartRoute) (rows : Rows)
    (s : Snapshot)
    → rebuild lower walk sr rows ≡ some s
    → (accounts : List Account) × (mgs : List ModelGroup) × (gs : List UserGroup) × (assemble lower
          walk sr accounts mgs gs
        ≡ s)
unfolding rebuild
rebuild-assembled lower walk sr rows s e =
    queries rows.accounts rows.model_groups rows.user_groups e
  where
    queries :
        (a : Option (List Account)) (m : Option (List ModelGroup)) (g : Option (List UserGroup))
        → (do accounts ← a; mgs ← m; groups ← g; some (assemble lower walk sr accounts mgs groups))
          ≡ some s
        → (accounts : List Account) × (mgs : List ModelGroup) × (gs : List UserGroup) × (assemble
              lower walk sr accounts mgs gs
            ≡ s)
    queries none m g e = absurd (ground arith)
    queries (some x) none g e = absurd (ground arith)
    queries (some x) (some y) none e = absurd (ground arith)
    queries (some x) (some y) (some z) e = (x, y, z, ground arith)

-- The name has a type.
abbrev Typed : Snapshot → String → Type 0
Typed s c = (t : ProtoType) × (s.model_type c ≡ some t)

put-some :
    (m : String → Option ProtoType) (k : String) (t : ProtoType) (c : String)
    → (u : ProtoType) × (m c ≡ some u)
    → (u : ProtoType) × (put m k (some t) c ≡ some u)
put-some m k t c has = elim (Bool-cases (k == c)) [
  | inl e ↦ (t, rw e refl)
  | inr e ↦ (has.0, rw e has.1)
]

put_self :
    (m : String → Option ProtoType) (k : String) (t : ProtoType) → put m k (some t) k ≡ some t
put_self m k t = rw (eq_refl k) refl

-- Every name that is filed has a type.
abbrev AllTyped : Draft → Type 0
AllTyped d = All (Typed d.snap) d.names

All-append :
    (P : String → Type 0) (xs : List String) (x : String) → All P xs → P x → All P (xs ++ (x ∷ []))
All-append P [] x all p = (p, tt)
All-append P (y ∷ xs) x all p = (all.0, All-append P xs x all.1 p)

file_mapping-AllTyped :
    (type : ProtoType) (u : Upstream) (m : String) (d : Draft)
    → AllTyped d
    → AllTyped (file_mapping type u m d)
unfolding file_mapping
file_mapping-AllTyped type u m d all =
    let kept = All-map d.names (λ c. put-some d.snap.model_type m type c) all in
    elim (Bool-cases (among d.names m)) [
      | inl e ↦ rw e kept
      | inr e ↦ rw e (
          All-append (λ c. (t : ProtoType) × (put d.snap.model_type m (some type) c ≡ some t))
            d.names m kept (type, put_self d.snap.model_type m type))
    ]

file_mappings-AllTyped :
    (type : ProtoType) (u : Upstream) (ms : List (String × String)) (d : Draft)
    → AllTyped d
    → AllTyped (file_mappings type u ms d)
unfolding file_mappings
file_mappings-AllTyped type u [] d all = all
file_mappings-AllTyped type u ((m, to) ∷ ms) d all =
    file_mappings-AllTyped type u ms (file_mapping type u m d)
      (file_mapping-AllTyped type u m d all)

file_accounts-AllTyped :
    (rows : List Account) (d : Draft) → AllTyped d → AllTyped (file_accounts rows d)
unfolding file_accounts file_account
file_accounts-AllTyped [] d all = all
file_accounts-AllTyped (a ∷ rows) d all =
    file_accounts-AllTyped rows (file_account a d)
      (file_mappings-AllTyped a.type (upstream a) a.mappings _ all)

file_mappings-lower_name :
    (type : ProtoType) (u : Upstream) (ms : List (String × String)) (d : Draft)
    → (file_mappings type u ms d).snap.lower_name ≡ d.snap.lower_name
unfolding file_mappings file_mapping
file_mappings-lower_name type u [] d = refl
file_mappings-lower_name type u ((m, to) ∷ ms) d =
    file_mappings-lower_name type u ms (file_mapping type u m d)

file_accounts-lower_name :
    (rows : List Account) (d : Draft) → (file_accounts rows d).snap.lower_name ≡ d.snap.lower_name
unfolding file_accounts file_account
file_accounts-lower_name [] d = refl
file_accounts-lower_name (a ∷ rows) d =
    file_accounts-lower_name rows (file_account a d)
    ∙ file_mappings-lower_name a.type (upstream a) a.mappings _

assign-All :
    (P : String → Type 0) (l c : String) (m : List (String × String))
    → P c
    → All (λ e. P e.1) m
    → All (λ e. P e.1) (assign l c m)
unfolding assign
assign-All P l c [] p all = (p, tt)
assign-All P l c ((k, d) ∷ m) p all = elim (Bool-cases (k == l)) [
  | inl e ↦ rw e (p, all.1)
  | inr e ↦ rw e (all.0, assign-All P l c m p all.1)
]

Permᴰ-All : (P : String → Type 0) {xs ys : List String} → Permᴰ xs ys → All P xs → All P ys
Permᴰ-All P Permᴰ.nil all = all
Permᴰ-All P (Permᴰ.cons e p) all = (subst P e all.0, Permᴰ-All P p all.1)
Permᴰ-All P (Permᴰ.swap e e') all = (subst P e' all.1.0, (subst P e all.0, all.1.1))
Permᴰ-All P (Permᴰ.trans p q) all = Permᴰ-All P q (Permᴰ-All P p all)

module _ (lower : String → String) where
  fold_names-Named :
      (names : List String) (s : Snapshot)
      → All (Typed s) names
      → Named s
      → Named (fold_names lower names s)
  unfolding fold_names
  fold_names-Named [] s typed named = named
  fold_names-Named (m ∷ names) s typed named =
      fold_names-Named names _ typed.1 (assign-All (Typed s) (lower m) m s.lower_name typed.0 named)

  index-Named :
      (walk : List String → List String) (rows : List Account)
      → ((names : List String) → Permᴰ names (walk names))
      → Named (index lower walk rows)
  unfolding index
  index-Named walk rows permutes =
      let d = file_accounts rows (record { snap = blank; names = [] }) in
      fold_names-Named (walk d.names) _
        (Permᴰ-All (Typed d.snap) (permutes d.names)
          (file_accounts-AllTyped rows (record { snap = blank; names = [] }) tt))
        (subst (All (λ e. Typed d.snap e.1))
          (sym (file_accounts-lower_name rows (record { snap = blank; names = [] }))) tt)

  add_virtual-Named : (sr : SmartRoute) (s : Snapshot) → Named s → Named (add_virtual sr s)
  unfolding add_virtual
  add_virtual-Named sr s named = elim (Bool-cases (sr.enabled && not (sr.virtual_model == ""))) [
    | inl e ↦
        rw e
          (All-map s.lower_name (λ x. put-some s.model_type sr.virtual_model type_text x.1) named)
    | inr e ↦ rw e named
  ]

  add_model_group-Named : (mg : ModelGroup) (s : Snapshot) → Named s → Named (add_model_group mg s)
  unfolding add_model_group
  add_model_group-Named mg s named = elim (Option-cases (s.model_type mg.name)) [
    | inl e ↦
        rw (e, add_model_group)
          (All-map s.lower_name (λ x. put-some s.model_type mg.name mg.type x.1) named)
    | inr (t, e) ↦ rw (e, add_model_group) named
  ]

  add_model_groups-Named :
      (mgs : List ModelGroup) (s : Snapshot) → Named s → Named (add_model_groups mgs s)
  unfolding add_model_groups
  add_model_groups-Named [] s named = named
  add_model_groups-Named (mg ∷ mgs) s named =
      add_model_groups-Named mgs (add_model_group mg s) (add_model_group-Named mg s named)

  add_groups-Named : (gs : List UserGroup) (s : Snapshot) → Named s → Named (add_groups gs s)
  unfolding add_groups add_group
  add_groups-Named [] s named = named
  add_groups-Named (g ∷ gs) s named = add_groups-Named gs (add_group g s) named

  -- In every snapshot that a rebuild stores, in whatever order it walks the models, the lower-case names stand for configured ones.
  pub rebuild-Named :
      (walk : List String → List String) (sr : SmartRoute) (rows : Rows) (s : Snapshot)
      → ((names : List String) → Permᴰ names (walk names))
      → rebuild lower walk sr rows ≡ some s
      → Named s
  unfolding assemble
  rebuild-Named walk sr rows s permutes e =
      let (accounts, mgs, gs, same) = rebuild-assembled lower walk sr rows s e in
      subst Named same (
        add_groups-Named gs _ (
          add_model_groups-Named mgs _
            (add_virtual-Named sr _ (index-Named walk accounts permutes))))
