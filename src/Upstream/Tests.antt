-- ===== src/Upstream/Tests.antt =====
-- The accounts of internal/gateway at concrete values.
use mathlib.Core.List.{Permᴰ}
use yzapi.Base.{
  ℕ, ◌-◌, ◌*◌, ◌≤◌, ◌≡◌, ◌⊎◌, refl, Bool, true, false, none, some, List, [], ◌∷◌, map, ltb,
  if◌then◌else◌, arith,
}
use yzapi.Base.Int.{ℤ, pos}
use yzapi.Upstream.{Proto, chat, messages, Upstream, pick_proto}
use yzapi.Upstream.Order.{order_upstreams, tiers, tier_of, shuffle, draw, total}
use yzapi.Upstream.Order.Ordered.{order_upstreams_lem}
use yzapi.Upstream.Protocols.{Convertible, Eligible, pick_proto_lem}
use yzapi.Upstream.Retry.{longest, parse_retry_after, retry_after_bounds}

abbrev only_messages : Proto → Bool
only_messages messages = true
only_messages _ = false

abbrev account : ℕ → ℤ → ℤ → Upstream
account id priority weight = record {
  id = id;
  protocols = only_messages;
  mappings = λ model. none;
  priority = priority;
  weight = weight;
  max_concurrency = pos 1;
  endpoints = λ path. false;
}

pick_proto_lem_example :
    ((p : Proto) × (pick_proto (account 1 (pos 0) (pos 1)) chat true ≡ some p)
      × (only_messages p ≡ true)
      × ((p ≡ chat) ⊎ Convertible (account 1 (pos 0) (pos 1)) chat true p))
    ⊎ ((pick_proto (account 1 (pos 0) (pos 1)) chat true ≡ none)
        × ¬ ((p : Proto) × Eligible chat true p × (only_messages p ≡ true)))
pick_proto_lem_example = pick_proto_lem (account 1 (pos 0) (pos 1)) chat true

retry_after_bounds_example :
    (parse_retry_after none (some (pos 5)) ≤ longest)
    × (parse_retry_after (some (pos 20)) (some (pos 5))
        ≡ (if ltb longest (20 * 1_000_000_000) then longest else 20 * 1_000_000_000))
retry_after_bounds_example = retry_after_bounds 20 none (some (pos 5)) (omega arith)

-- Two accounts of one tier, then a third: the random numbers take the second account first.
abbrev three : List Upstream
three = account 1 (pos 0) (pos 1) ∷ account 2 (pos 0) (pos 3) ∷ account 3 (pos 1) (pos 1) ∷ []

abbrev last_number : ℕ → ℕ → ℕ
last_number k n = n - 1

ids : map (λ u. u.id) (order_upstreams last_number three) ≡ 2 ∷ 1 ∷ 3 ∷ []
unfolding order_upstreams tiers tier_of shuffle draw total
ids = refl

order_upstreams_lem_example :
    Permᴰ (order_upstreams last_number three) three
    × (map (λ u. u.priority) (order_upstreams last_number three) ≡ map (λ u. u.priority) three)
order_upstreams_lem_example = order_upstreams_lem last_number three (λ k n h. omega arith)
