-- ===== src/Snapshot/File.antt =====
-- The accounts of internal/gateway/snapshot.go as `rebuild` reads and files them: their rows, the view of
-- one account, and the lists by model and by type.
use text.Mathlib.Text.{◌==◌}
use yzapi.Base.{
  ℕ, String, Bool, true, false, Option, none, some, List, [], ◌∷◌, ◌++◌, if◌then◌else◌, update,
}
use yzapi.Base.Int.{ℤ, pos, ltb_ℤ}
use yzapi.Base.Texts.{put}
use yzapi.Upstream.{Proto, ProtoType, Upstream, type_custom, same_proto}
use yzapi.Snapshot.{Snapshot, Group, ModelGroup}
use yzapi.Snapshot.Resolve.{same_type}

-- `model.Account`, with its mappings
pub record Account : Type 0 where
  pub id : ℕ
  pub type : ProtoType
  pub protocols : List Proto
  pub endpoints : List String
  pub mappings : List (String × String)
  pub priority : ℤ
  pub weight : ℤ
  pub max_concurrency : ℤ
  pub passthrough_models : Bool

-- `model.UserGroup`, with its model groups
pub record UserGroup : Type 0 where
  pub view : Group
  pub model_groups : List ModelGroup
  pub is_default : Bool

-- the three queries; `none` is an error
pub record Rows : Type 0 where
  pub accounts : Option (List Account)
  pub model_groups : Option (List ModelGroup)
  pub user_groups : Option (List UserGroup)

-- `settings.SmartRoute`
pub record SmartRoute : Type 0 where
  pub virtual_model : String
  pub enabled : Bool

-- the snapshot as far as it is built, and the keys of `byModel` in the order of their arrival
pub record Draft : Type 0 where
  pub snap : Snapshot
  pub names : List String

-- map[string]bool and the like, from a list of keys
unfoldable pub among : List String → String → Bool
among [] k = false
among (x ∷ xs) k = let rest = among xs k in if x == k then true else rest

unfoldable pub speaks : List Proto → Proto → Bool
speaks [] p = false
speaks (q ∷ qs) p = let rest = speaks qs p in if same_proto q p then true else rest

-- u.Mappings, where a later mapping of a name takes the place of an earlier one
unfoldable pub mapped : List (String × String) → (String → Option String) → String → Option String
mapped [] m = m
mapped ((k, v) ∷ kvs) m = mapped kvs (put m k (some v))

abbrev is_custom : ProtoType → Bool
is_custom t = same_type t type_custom

-- `&Upstream{...}` and the loops that fill it
unfoldable pub upstream : Account → Upstream
unfolding among speaks mapped
upstream a = record {
  id = a.id;
  protocols = speaks a.protocols;
  mappings = mapped a.mappings (λ model. none);
  priority = a.priority;
  weight = if ltb_ℤ a.weight (pos 1) then pos 1 else a.weight;
  max_concurrency = a.max_concurrency;
  endpoints = if is_custom a.type then among a.endpoints else (λ path. false);
}

abbrev add_name : String → List String → List String
add_name m names = if among names m then names else names ++ (m ∷ [])

-- one mapping: `byModel` and `modelType`
unfoldable pub file_mapping : ProtoType → Upstream → String → Draft → Draft
unfolding among
file_mapping type u m d = record {
  snap = record d.snap {
    by_model = put d.snap.by_model m (d.snap.by_model m ++ (u ∷ []));
    model_type = put d.snap.model_type m (some type);
  };
  names = add_name m d.names;
}

unfoldable pub file_mappings : ProtoType → Upstream → List (String × String) → Draft → Draft
unfolding file_mapping
file_mappings type u [] d = d
file_mappings type u ((m, to) ∷ ms) d = file_mappings type u ms (file_mapping type u m d)

-- the body of the loop over the accounts
unfoldable pub file_account : Account → Draft → Draft
unfolding file_mappings upstream among
file_account a d =
    let u = upstream a in
    let s = d.snap in
    let with_pass =
      if a.passthrough_models
      then (λ t. if same_type a.type t then s.passthrough t ++ (u ∷ []) else s.passthrough t)
      else s.passthrough in
    let with_ends =
      if is_custom a.type
      then (λ path. if among a.endpoints path then true else s.endpoints path)
      else s.endpoints in
    file_mappings a.type u a.mappings (record d {
      snap = record s {
        accounts = update s.accounts a.id (some u);
        passthrough = with_pass;
        endpoints = with_ends;
      };
    })

unfoldable pub file_accounts : List Account → Draft → Draft
unfolding file_account
file_accounts [] d = d
file_accounts (a ∷ rows) d = file_accounts rows (file_account a d)
