-- ===== src/Snapshot/Tests.antt =====
-- internal/gateway/snapshot.go with three accounts. Every name here is in lower case already.
use mathlib.Core.List.{Permᴰ}
use mathlib.Core.List.Permᴰ
use yzapi.Base.{ℕ, ◌≡◌, refl, String, false, none, some, List, [], ◌∷◌, map}
use yzapi.Base.Int.{ℤ, pos}
use yzapi.Upstream.{type_text, chat}
use yzapi.Snapshot.{Snapshot}
use yzapi.Snapshot.Build.{
  rebuild, assemble, index, add_virtual, add_model_groups, add_groups, sorted, insert, fold_names,
  assign,
}
use yzapi.Snapshot.File.{
  Account, SmartRoute, Rows, file_accounts, file_account, file_mappings, file_mapping, among,
  upstream,
}
use yzapi.Snapshot.Build.Sorted.{Listed}
use yzapi.Snapshot.Build.Stored.{rebuild_lists}
use yzapi.Snapshot.Build.Named.{rebuild-Named}
use yzapi.Snapshot.Resolve.{
  found, resolve, try, lookup, scan, no_match, add, qualifies, settle, bare, strip, last_segment,
  after_slash, resolve_latest, resolve_versions, extra, version_like, only_version,
}
use yzapi.Snapshot.Resolve.Sound.{Named, Served, resolve-Served}
use yzapi.Snapshot.Resolve.Versions.{scan-order, the_longest, gather, tested}

abbrev lower : String → String
lower s = s

abbrev account : ℕ → ℤ → List (String × String) → Account
account id priority mappings = record {
  id = id;
  type = type_text;
  protocols = chat ∷ [];
  endpoints = [];
  mappings = mappings;
  priority = priority;
  weight = pos 0;
  max_concurrency = pos 0;
  passthrough_models = false;
}

abbrev accounts : List Account
accounts =
    account 1 (pos 5) (("gpt-5", "gpt-5") ∷ [])
    ∷ account 2 (pos 1) (("gpt-5", "g5") ∷ ("claude-4", "claude-4") ∷ [])
    ∷ []

abbrev rows : Rows
rows = record { accounts = some accounts; model_groups = some []; user_groups = some [] }

abbrev no_route : SmartRoute
no_route = record { virtual_model = ""; enabled = false }

-- a walk that meets the second model first
abbrev swaps : List String → List String
swaps [] = []
swaps (x ∷ []) = x ∷ []
swaps (x ∷ y ∷ names) = y ∷ x ∷ names

swaps-Permᴰ : (names : List String) → Permᴰ names (swaps names)
swaps-Permᴰ [] = Permᴰ.refl []
swaps-Permᴰ (x ∷ []) = Permᴰ.refl (x ∷ [])
swaps-Permᴰ (x ∷ y ∷ names) = Permᴰ.swap refl refl

abbrev snapshot : Snapshot
snapshot = assemble lower swaps no_route accounts [] []

order : map (λ u. u.id) (snapshot.by_model "gpt-5") ≡ 2 ∷ 1 ∷ []
unfolding assemble index add_virtual add_model_groups add_groups file_accounts file_account
    file_mappings file_mapping among upstream sorted insert fold_names
order = refl

rebuild_lists_example : Listed snapshot × Named snapshot
unfolding rebuild
rebuild_lists_example = rebuild_lists lower swaps no_route rows snapshot swaps-Permᴰ refl

named : Named snapshot
unfolding rebuild
named = rebuild-Named lower swaps no_route rows snapshot swaps-Permᴰ refl

-- A dated name of an OpenRouter client
dated : resolve lower snapshot "openai/gpt-5-2025-08-07" none ≡ found "gpt-5" (some type_text)
unfolding assemble index add_virtual add_model_groups add_groups file_accounts file_account
    file_mappings file_mapping among fold_names assign resolve try lookup scan add qualifies settle
    bare strip last_segment after_slash resolve_latest resolve_versions extra version_like
    only_version
dated = refl

resolve-Served_example :
    Served snapshot "gpt-5-2025" none (resolve lower snapshot "gpt-5-2025" none)
resolve-Served_example = resolve-Served lower snapshot named "gpt-5-2025" none

scan-order_example :
    settle snapshot "gpt-5-2025" none
      (scan snapshot none "gpt-5-2025"
        (("gpt-5", "gpt-5") ∷ ("claude-4", "claude-4") ∷ [])
        no_match).matches
      false
    ≡ settle snapshot "gpt-5-2025" none
        (the_longest (
          gather
            (tested snapshot none "gpt-5-2025")
            (("claude-4", "claude-4") ∷ ("gpt-5", "gpt-5") ∷ [])))
        false
scan-order_example =
    scan-order snapshot "gpt-5-2025" none "gpt-5-2025" false
      (("claude-4", "claude-4") ∷ ("gpt-5", "gpt-5") ∷ [])
      (("gpt-5", "gpt-5") ∷ ("claude-4", "claude-4") ∷ []) (Permᴰ.swap refl refl)
