-- ===== src/Snapshot/Build.antt =====
-- `snapshotHolder.rebuild` of internal/gateway/snapshot.go, from the rows of the database. The address,
-- the key and the list that is shown to clients are left out. `lower` is `strings.ToLower`, and `walk` the
-- order in which a walk of a map with these keys meets them.
pub mod Sorted
pub mod Named
pub mod Stored
use yzapi.Snapshot.File.{Account, Rows, SmartRoute, UserGroup, among, file_accounts}
use text.Mathlib.Text.{◌==◌}
use yzapi.Base.{
  ◌>>=◌, String, Bool, true, false, not, ◌&&◌, Option, none, some, List, [], ◌∷◌, if◌then◌else◌,
  update,
}
use yzapi.Base.Int.{ltb_ℤ}
use yzapi.Base.Texts.{put}
use yzapi.Upstream.{Upstream, type_text}
use yzapi.Snapshot.{Snapshot, Group, ModelGroup}
use yzapi.Snapshot.Resolve.{lookup}

-- `sort.SliceStable` by priority
unfoldable pub insert : Upstream → List Upstream → List Upstream
insert u [] = u ∷ []
insert u (v ∷ vs) =
    let rest = insert u vs in if ltb_ℤ v.priority u.priority then v ∷ rest else u ∷ v ∷ vs

unfoldable pub sorted : List Upstream → List Upstream
unfolding insert
sorted [] = []
sorted (u ∷ us) = insert u (sorted us)

-- an assignment to a key of `lowerName`
unfoldable pub assign : String → String → List (String × String) → List (String × String)
assign l c [] = (l, c) ∷ []
assign l c ((k, d) ∷ m) = let rest = assign l c m in if k == l then (k, c) ∷ m else (k, d) ∷ rest

module _ (lower : String → String) where
  abbrev other_spelling : Option String → String → Bool
  other_spelling none m = false
  other_spelling (some prev) m = not (prev == m)

  -- `lowerName` and `lowerDup`, for the names of `byModel` as the walk meets them
  unfoldable pub fold_names : List String → Snapshot → Snapshot
  unfolding assign lookup
  fold_names [] s = s
  fold_names (m ∷ names) s = fold_names names (record s {
    lower_dup =
        if other_spelling (lookup (lower m) s.lower_name) m
        then put s.lower_dup (lower m) true
        else s.lower_dup;
    lower_name = assign (lower m) m s.lower_name;
  })

-- the smart route's model
unfoldable pub add_virtual : SmartRoute → Snapshot → Snapshot
add_virtual sr s =
    if sr.enabled && not (sr.virtual_model == "")
    then record s {
      model_type = put s.model_type sr.virtual_model (some type_text);
      virtual_model = sr.virtual_model;
    }
    else s

-- a model group is addressed by its name unless a model has that name
unfoldable pub add_model_group : ModelGroup → Snapshot → Snapshot
add_model_group mg s =
    let out = record s { model_groups = update s.model_groups mg.id (some mg) } in
    elim (s.model_type mg.name) [
      | some t ↦ out
      | none ↦ record out {
        group_by_name = put s.group_by_name mg.name (some mg);
        model_type = put s.model_type mg.name (some mg.type);
      }
    ]

unfoldable pub add_model_groups : List ModelGroup → Snapshot → Snapshot
unfolding add_model_group
add_model_groups [] s = s
add_model_groups (mg ∷ mgs) s = add_model_groups mgs (add_model_group mg s)

-- the models of some model groups
unfoldable pub models_of : List ModelGroup → String → Bool
unfolding among
models_of [] m = false
models_of (mg ∷ mgs) m = let rest = models_of mgs m in if among mg.models m then true else rest

unfoldable pub names_of : List ModelGroup → String → Bool
names_of [] n = false
names_of (mg ∷ mgs) n = let rest = names_of mgs n in if mg.name == n then true else rest

-- `allowed` and `model_group_names` of a user group
abbrev pub view_of : UserGroup → Group
view_of g = elim g.model_groups [
  | [] ↦ record g.view { allowed = none; model_group_names = none }
  | mg ∷ mgs ↦ record g.view {
    allowed = some (models_of (mg ∷ mgs));
    model_group_names = some (names_of (mg ∷ mgs));
  }
]

unfoldable pub add_group : UserGroup → Snapshot → Snapshot
add_group g s = record s {
  groups = update s.groups g.view.id (some (view_of g));
  default_group = if g.is_default then some (view_of g) else s.default_group;
}

unfoldable pub add_groups : List UserGroup → Snapshot → Snapshot
unfolding add_group
add_groups [] s = s
add_groups (g ∷ gs) s = add_groups gs (add_group g s)

abbrev pub blank : Snapshot
blank = record {
  accounts = λ id. none;
  by_model = λ m. [];
  model_type = λ m. none;
  lower_name = [];
  lower_dup = λ l. false;
  passthrough = λ t. [];
  endpoints = λ path. false;
  groups = λ id. none;
  default_group = none;
  model_groups = λ id. none;
  group_by_name = λ n. none;
  virtual_model = "";
}

-- the lists in the order of priorities
abbrev pub sort_lists : Snapshot → Snapshot
sort_lists s = record s {
  by_model = λ m. sorted (s.by_model m);
  passthrough = λ t. sorted (s.passthrough t);
}

-- the accounts filed, sorted and indexed
unfoldable pub index :
    (String → String) → (walk : List String → List String) → List Account → Snapshot
unfolding file_accounts fold_names
index lower walk rows =
    let d = file_accounts rows (record { snap = blank; names = [] }) in
    fold_names lower (walk d.names) (sort_lists d.snap)

-- the snapshot of the rows
unfoldable pub assemble :
    (String → String)
    → (walk : List String → List String) → SmartRoute
    → List Account
    → List ModelGroup
    → List UserGroup
    → Snapshot
unfolding index add_virtual add_model_groups add_groups
assemble lower walk sr accounts mgs groups =
    add_groups groups (add_model_groups mgs (add_virtual sr (index lower walk accounts)))

-- `rebuild`, of the snapshot that it stores; an error stores none
unfoldable pub rebuild :
    (String → String) → (walk : List String → List String) → SmartRoute → Rows → Option Snapshot
rebuild lower walk sr rows = do
  accounts ← rows.accounts
  mgs ← rows.model_groups
  groups ← rows.user_groups
  some (assemble lower walk sr accounts mgs groups)
