-- ===== src/Base/Texts.antt =====
-- Maps keyed by text, as functions updated at one key.
use Prim.Native.String.{String}
use text.Mathlib.Text.{◌==◌}
use yzapi.Base.Tests.{if◌then◌else◌}

abbrev pub put {ℓ} : {A : Type ℓ} → (String → A) → String → A → String → A
put m k v j = if k == j then v else m j
