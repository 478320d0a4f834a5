-- ===== src/Snapshot/Build/Sorted.antt =====
-- The lists of accounts that `rebuild` of internal/gateway/snapshot.go makes.
use text.Mathlib.Text.{◌==◌}
use text.Mathlib.TextEquality.{eq_iff}
use text.Mathlib.TextPositions.{eq_refl}
use yzapi.Base.{
  String, ◌≡◌, refl, ◌∙◌, sym, subst, not, ◌&&◌, inl, inr, Option, none, some, List, [], ◌∷◌, ◌++◌,
  Bool-cases, Option-cases, arith,
}
use yzapi.Base.Int.{ℤ, ltb_ℤ, ◌≤ℤ◌}
use yzapi.Base.Texts.{put}
use yzapi.Base.Pick.{All}
use yzapi.Upstream.{ProtoType, Upstream}
use yzapi.Snapshot.{Snapshot, ModelGroup}
use yzapi.Snapshot.Build.Named.{rebuild-assembled}
use yzapi.Snapshot.Build.{
  insert, sorted, blank, fold_names, add_virtual, add_model_group, add_model_groups, add_group,
  add_groups, index, assemble, rebuild, sort_lists,
}
use yzapi.Snapshot.File.{
  Account, Draft, mapped, upstream, file_mapping, file_mappings, file_account, file_accounts,
  SmartRoute, UserGroup, Rows,
}

abbrev pub Below : ℤ → List Upstream → Type 0
Below p [] = Unit
Below p (v ∷ vs) = p ≤ℤ v.priority

-- Priorities do not fall.
abbrev pub Ordered : List Upstream → Type 0
Ordered [] = Unit
Ordered (u ∷ us) = Below u.priority us × Ordered us

-- The account maps the model.
abbrev pub Maps : String → Upstream → Type 0
Maps m u = (to : String) × (u.mappings m ≡ some to)

insert-Below :
    (p : ℤ) (u : Upstream) (us : List Upstream)
    → p ≤ℤ u.priority
    → Below p us
    → Below p (insert u us)
unfolding insert
insert-Below p u [] h b = h
insert-Below p u (v ∷ vs) h b = elim (Bool-cases (ltb_ℤ v.priority u.priority)) [
  | inl e ↦ rw e b
  | inr e ↦ rw e h
]

insert-Ordered : (u : Upstream) (us : List Upstream) → Ordered us → Ordered (insert u us)
unfolding insert
insert-Ordered u [] o = (tt, tt)
insert-Ordered u (v ∷ vs) o = elim (Bool-cases (ltb_ℤ v.priority u.priority)) [
  | inl e ↦ rw e (insert-Below v.priority u vs (ground arith) o.0, insert-Ordered u vs o.1)
  | inr e ↦ rw e ((ground arith), o)
]

sorted-Ordered : (us : List Upstream) → Ordered (sorted us)
unfolding sorted
sorted-Ordered [] = tt
sorted-Ordered (u ∷ us) = insert-Ordered u (sorted us) (sorted-Ordered us)

module _ (P : Upstream → Type 0) where
  insert-All : (u : Upstream) (us : List Upstream) → P u → All P us → All P (insert u us)
  unfolding insert
  insert-All u [] p all = (p, tt)
  insert-All u (v ∷ vs) p all = elim (Bool-cases (ltb_ℤ v.priority u.priority)) [
    | inl e ↦ rw e (all.0, insert-All u vs p all.1)
    | inr e ↦ rw e (p, all)
  ]

  sorted-All : (us : List Upstream) → All P us → All P (sorted us)
  unfolding sorted
  sorted-All [] all = tt
  sorted-All (u ∷ us) all = insert-All u (sorted us) all.0 (sorted-All us all.1)

  All-append : (us : List Upstream) (u : Upstream) → All P us → P u → All P (us ++ (u ∷ []))
  All-append [] u all p = (p, tt)
  All-append (v ∷ vs) u all p = (all.0, All-append vs u all.1 p)

-- A mapping that is there stays, whatever comes later in the list.
mapped-keeps :
    (kvs : List (String × String)) (m : String → Option String) (k : String)
    → (v : String) × (m k ≡ some v)
    → (v : String) × (mapped kvs m k ≡ some v)
unfolding mapped
mapped-keeps [] m k has = has
mapped-keeps ((j, w) ∷ kvs) m k has =
    mapped-keeps kvs (put m j (some w)) k
      (elim (Bool-cases (j == k)) [ inl e ↦ (w, rw e refl) | inr e ↦ (has.0, rw e has.1) ])

mapped-All :
    (kvs : List (String × String)) (m : String → Option String)
    → All (λ e. (v : String) × (mapped kvs m e.0 ≡ some v)) kvs
unfolding mapped
mapped-All [] m = tt
mapped-All ((k, w) ∷ kvs) m = (
  mapped-keeps kvs (put m k (some w)) k (w, rw (eq_refl k) refl),
  mapped-All kvs (put m k (some w)),
)

-- Every list of accounts holds accounts that map its model.
abbrev Filed : Draft → Type 0
Filed d = (m : String) → All (Maps m) (d.snap.by_model m)

file_mapping-Filed :
    (type : ProtoType) (u : Upstream) (m : String) (d : Draft)
    → Maps m u
    → Filed d
    → Filed (file_mapping type u m d)
unfolding file_mapping
file_mapping-Filed type u m d maps filed n = elim (Bool-cases (m == n)) [
  | inl e ↦ rw e (
      subst (λ x. All (Maps x) (d.snap.by_model m ++ (u ∷ []))) ((eq_iff m n).0 e)
        (All-append (Maps m) (d.snap.by_model m) u (filed m) maps))
  | inr e ↦ rw e (filed n)
]

file_mappings-Filed :
    (type : ProtoType) (u : Upstream) (ms : List (String × String)) (d : Draft)
    → All (λ e. Maps e.0 u) ms
    → Filed d
    → Filed (file_mappings type u ms d)
unfolding file_mappings
file_mappings-Filed type u [] d maps filed = filed
file_mappings-Filed type u ((m, to) ∷ ms) d maps filed =
    file_mappings-Filed type u ms (file_mapping type u m d) maps.1
      (file_mapping-Filed type u m d maps.0 filed)

file_account-Filed : (a : Account) (d : Draft) → Filed d → Filed (file_account a d)
unfolding file_account upstream
file_account-Filed a d filed =
    file_mappings-Filed a.type (upstream a) a.mappings _ (mapped-All a.mappings (λ m. none)) filed

file_accounts-Filed : (rows : List Account) (d : Draft) → Filed d → Filed (file_accounts rows d)
unfolding file_accounts
file_accounts-Filed [] d filed = filed
file_accounts-Filed (a ∷ rows) d filed =
    file_accounts-Filed rows (file_account a d) (file_account-Filed a d filed)

-- The steps after the accounts leave the lists alone.
abbrev SameLists : Snapshot → Snapshot → Type 0
SameLists s t = (t.by_model ≡ s.by_model) × (t.passthrough ≡ s.passthrough)

-- What the lists of a snapshot promise.
abbrev pub Listed : Snapshot → Type 0
Listed s =
    ((m : String) → Ordered (s.by_model m) × All (Maps m) (s.by_model m))
    × ((t : ProtoType) → Ordered (s.passthrough t))

module _ (lower : String → String) (walk : List String → List String) where
  fold_names-SameLists :
      (names : List String) (s : Snapshot) → SameLists s (fold_names lower names s)
  unfolding fold_names
  fold_names-SameLists [] s = (refl, refl)
  fold_names-SameLists (m ∷ names) s = fold_names-SameLists names _

  add_virtual-SameLists : (sr : SmartRoute) (s : Snapshot) → SameLists s (add_virtual sr s)
  unfolding add_virtual
  add_virtual-SameLists sr s = elim (Bool-cases (sr.enabled && not (sr.virtual_model == ""))) [
    | inl e ↦ rw e (refl, refl)
    | inr e ↦ rw e (refl, refl)
  ]

  add_model_group-SameLists : (mg : ModelGroup) (s : Snapshot) → SameLists s (add_model_group mg s)
  unfolding add_model_group
  add_model_group-SameLists mg s = elim (Option-cases (s.model_type mg.name)) [
    | inl e ↦ rw (e, add_model_group) (refl, refl)
    | inr (t, e) ↦ rw (e, add_model_group) (refl, refl)
  ]

  add_model_groups-SameLists :
      (mgs : List ModelGroup) (s : Snapshot) → SameLists s (add_model_groups mgs s)
  unfolding add_model_groups
  add_model_groups-SameLists [] s = (refl, refl)
  add_model_groups-SameLists (mg ∷ mgs) s =
      let first = add_model_group-SameLists mg s in
      let later = add_model_groups-SameLists mgs (add_model_group mg s) in
      (later.0 ∙ first.0, later.1 ∙ first.1)

  add_groups-SameLists : (gs : List UserGroup) (s : Snapshot) → SameLists s (add_groups gs s)
  unfolding add_groups add_group
  add_groups-SameLists [] s = (refl, refl)
  add_groups-SameLists (g ∷ gs) s = add_groups-SameLists gs (add_group g s)

  SameLists-Listed : (s t : Snapshot) → SameLists s t → Listed s → Listed t
  SameLists-Listed s t (models, passes) (listed, ordered) = (
    (λ m. subst (λ l. Ordered (l m) × All (Maps m) (l m)) (sym models) (listed m)),
    λ u. subst (λ l. Ordered (l u)) (sym passes) (ordered u),
  )

  index-Listed : (rows : List Account) → Listed (index lower walk rows)
  unfolding index
  index-Listed rows =
      let d = file_accounts rows (record { snap = blank; names = [] }) in
      let filed = file_accounts-Filed rows (record { snap = blank; names = [] }) (λ m. tt) in
      SameLists-Listed (sort_lists d.snap) (fold_names lower (walk d.names) (sort_lists d.snap))
        (fold_names-SameLists (walk d.names) (sort_lists d.snap))
        (
          (λ m. (
            sorted-Ordered (d.snap.by_model m),
            sorted-All (Maps m) (d.snap.by_model m) (filed m),
          )),
          λ t. sorted-Ordered (d.snap.passthrough t),
        )

  assemble-Listed :
      (sr : SmartRoute) (accounts : List Account) (mgs : List ModelGroup) (gs : List UserGroup)
      → Listed (assemble lower walk sr accounts mgs gs)
  unfolding assemble
  assemble-Listed sr accounts mgs gs =
      let s1 = index lower walk accounts in
      let s2 = add_virtual sr s1 in
      let s3 = add_model_groups mgs s2 in
      SameLists-Listed s3 (add_groups gs s3) (add_groups-SameLists gs s3) (
        SameLists-Listed s2 s3 (add_model_groups-SameLists mgs s2)
          (SameLists-Listed s1 s2 (add_virtual-SameLists sr s1) (index-Listed accounts)))

  -- In every snapshot that a rebuild stores, the accounts of a model all map the model and are
  -- sorted by priority, and the accounts that take any name of a type are sorted by priority.
  pub rebuild-Listed :
      (sr : SmartRoute) (rows : Rows) (s : Snapshot)
      → rebuild lower walk sr rows ≡ some s
      → Listed s
  rebuild-Listed sr rows s e =
      let (accounts, mgs, gs, same) = rebuild-assembled lower walk sr rows s e in
      subst Listed same (assemble-Listed sr accounts mgs gs)
