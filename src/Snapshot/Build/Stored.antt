-- ===== src/Snapshot/Build/Stored.antt =====
-- What every snapshot that `rebuild` of internal/gateway/snapshot.go stores promises.
use mathlib.Core.List.{Permᴰ}
use Prim.Native.String.{String}
use yzapi.Base.{◌≡◌, some, List}
use yzapi.Snapshot.{Snapshot}
use yzapi.Snapshot.File.{SmartRoute, Rows}
use yzapi.Snapshot.Resolve.Sound.{Named}
use yzapi.Snapshot.Build.{rebuild}
use yzapi.Snapshot.Build.Sorted.{Listed, rebuild-Listed}
use yzapi.Snapshot.Build.Named.{rebuild-Named}

-- In every snapshot that a rebuild stores, the accounts of a model all map the model and are sorted by
-- priority, the accounts that take any name of a type are sorted by priority, and the lower-case names
-- stand for configured ones. The rebuild may walk the models in any order that meets each once.
pub rebuild_lists :
    (lower : String → String) (walk : List String → List String) (sr : SmartRoute) (rows : Rows)
    (s : Snapshot)
    → ((names : List String) → Permᴰ names (walk names))
    → rebuild lower walk sr rows ≡ some s
    → Listed s × Named s
rebuild_lists lower walk sr rows s permutes e =
    (rebuild-Listed lower walk sr rows s e, rebuild-Named lower walk sr rows s permutes e)
