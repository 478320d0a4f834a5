-- ===== src/Snapshot.antt =====
-- `Snapshot` of internal/gateway/snapshot.go: the view of accounts, models and groups that a request
-- is served from. The list of models that is shown to clients is not modelled.
pub mod Resolve
pub mod File
pub mod Build
mod Tests
use yzapi.Base.{ℕ, String, Bool, Option, List, if◌then◌else◌}
use yzapi.Base.Int.{ℤ}
use yzapi.Upstream.{ProtoType, Upstream}

-- `GroupView`; `allowed` is `none` when all models are allowed, and then so is `model_group_names`
pub record Group : Type 0 where
  pub id : ℕ
  pub enabled : Bool
  pub max_concurrency : ℤ
  pub key_max_concurrency : ℤ
  pub token_quota : ℤ
  pub tokens_per_minute : ℤ
  pub requests_per_minute : ℤ
  pub allowed : Option (String → Bool)
  pub model_group_names : Option (String → Bool)

-- `ModelGroupView`
pub record ModelGroup : Type 0 where
  pub id : ℕ
  pub name : String
  pub type : ProtoType
  pub models : List String

-- `Snapshot`. `lower_name` is a map that the code walks over, in any order: a list of its entries.
pub record Snapshot : Type 0 where
  pub accounts : ℕ → Option Upstream
  pub by_model : String → List Upstream
  pub model_type : String → Option ProtoType
  pub lower_name : List (String × String)
  pub lower_dup : String → Bool
  pub passthrough : ProtoType → List Upstream
  pub endpoints : String → Bool
  pub groups : ℕ → Option Group
  pub default_group : Option Group
  pub model_groups : ℕ → Option ModelGroup
  pub group_by_name : String → Option ModelGroup
  -- empty when smart routing is off
  pub virtual_model : String
