-- ===== src/Compliance/Tests.antt =====
-- The compliance engine of internal/compliance on small rules and texts.
use yzapi.Base.{
  ℕ, zero, suc, ◌≤◌, ◌<◌, ◌≡◌, refl, ◌≢◌, ◌⊎◌, inl, inr, ◌↔◌, ◌+◌, ◌*◌, ◌/◌, ◌%◌, true, false, none,
  some, List, [], ◌∷◌, ok, arith, leb, if◌then◌else◌, less_or_not, ltb,
}
use yzapi.Base.Pick.{All}
use mathlib.Core.List.{Memᴰ, cons≢nil}
use mathlib.Core.List.Memᴰ.{head, tail}
use yzapi.Health.Truncate.{Bytes}
use yzapi.Compliance.{Go, Policy, HitEntry, Verdict, keyword}
use yzapi.Compliance.Matcher.{
  match_all, new_matcher, scan, links, follow, collect, add_patterns, add_pattern, insert, grow,
  edges, root_links, visit, under,
}
use yzapi.Compliance.Matcher.Insert.{IsText}
use yzapi.Compliance.Matcher.Parts.{get_elem?, Contains}
use yzapi.Compliance.Matcher.Scan.{Distinct}
use yzapi.Compliance.Matcher.Correct.{match_all-new_matcher}
use yzapi.Compliance.Check.{aggregate, blocks, no_verdict}
use yzapi.Compliance.Reload.{SensitiveWord, Tables, Engine, reload, check, empty_index, policies}
use yzapi.Compliance.Primary.{aggregate_lem, Reports, urgency}
use yzapi.Compliance.Words.{Occurs}
use yzapi.Compliance.Keywords.{check-reload-blocks}
use yzapi.Compliance.Vectors.{BuildRow, Answers, build_vectors, total}
use yzapi.Compliance.Vectors.Counted.{Looped, build_vectors-total}

-- every byte, the largest first
abbrev down_from : ℕ → List ℕ
down_from zero = []
down_from (suc n) = n ∷ down_from n

down_from-all : (n b : ℕ) → b < n → Memᴰ b (down_from n)
down_from-all zero b lt = absurd (omega arith)
down_from-all (suc n) b lt = elim (less_or_not b n) [
  | inl less ↦ tail (down_from-all n b less)
  | inr not_less ↦ head (omega arith)
]

every_byte : ℕ → List ℕ
every_byte n = down_from 256

every_byte-all : (n b : ℕ) → b < 256 → Memᴰ b (every_byte n)
unfolding every_byte
every_byte-all n b lt = down_from-all 256 b lt

-- "he", "she", "his", "hers" and no text, in "ushers"
abbrev patterns : List Bytes
patterns =
    (104 ∷ 101 ∷ [])
    ∷ (115 ∷ 104 ∷ 101 ∷ [])
    ∷ (104 ∷ 105 ∷ 115 ∷ [])
    ∷ []
    ∷ (104 ∷ 101 ∷ 114 ∷ 115 ∷ [])
    ∷ []

abbrev ushers : Bytes
ushers = 117 ∷ 115 ∷ 104 ∷ 101 ∷ 114 ∷ 115 ∷ []

abbrev letters : ℕ → List ℕ
letters n = 101 ∷ 104 ∷ 105 ∷ 114 ∷ 115 ∷ []

found_in_ushers : match_all (new_matcher letters patterns) ushers ≡ 1 ∷ 0 ∷ 4 ∷ []
unfolding match_all new_matcher scan links follow collect add_patterns add_pattern insert grow edges
    root_links visit under
found_in_ushers = refl

match_all-new_matcher_example :
    Distinct (match_all (new_matcher every_byte patterns) ushers)
    × ((i : ℕ)
        → Memᴰ i (match_all (new_matcher every_byte patterns) ushers)
          ↔ ((p : Bytes) × (get_elem? patterns i ≡ some p) × (p ≢ []) × Contains ushers p))
match_all-new_matcher_example = match_all-new_matcher every_byte patterns ushers every_byte-all (
  (omega arith, (omega arith, tt)),
  (
    (omega arith, (omega arith, (omega arith, tt))),
    (
      (omega arith, (omega arith, (omega arith, tt))),
      (tt, ((omega arith, (omega arith, (omega arith, (omega arith, tt)))), tt)),
    ),
  ),
)

-- letters in ASCII
abbrev lower_byte : ℕ → ℕ
lower_byte b = if leb 65 b then (if leb b 90 then b + 32 else b % 256) else b

abbrev lower : Bytes → Bytes
lower [] = []
lower (b ∷ s) = lower_byte b ∷ lower s

lower_byte-less : (b : ℕ) → lower_byte b < 256
lower_byte-less b = ground arith

lower-IsText : (s : Bytes) → IsText (lower s)
lower-IsText [] = tt
lower-IsText (b ∷ s) = (lower_byte-less b, lower-IsText s)

-- the space in front
abbrev trim : Bytes → Bytes
trim [] = []
trim (b ∷ s) = let rest = trim s in if leb b 32 then rest else b ∷ s

abbrev go : Go
go = record {
  above = λ a b. ltb b a;
  at_least = λ a b. leb b a;
  plus = λ a b. a + b;
  times = λ a b. a * b;
  over = λ a b. a / b;
  whole = λ a. a;
  widen = λ a. a;
  lower = lower;
  lower_name = λ s. s;
  trim = trim;
  runes = λ s. s;
  of_runes = λ s. s;
}

abbrev strict : Policy
strict = record { id = 7; name = "strict"; action = "block"; risk_level = "high" }

abbrev lenient : Policy
lenient = record { id = 8; name = "lenient"; action = "audit"; risk_level = "high" }

-- " HE"
abbrev word : SensitiveWord
word = record { id = 1; policy_group_id = 7; word = 32 ∷ 72 ∷ 69 ∷ [] }

abbrev tables : Tables
tables = record {
  groups = ok (strict ∷ lenient ∷ []);
  words = λ ids. ok (word ∷ []);
  samples = λ ids. ok [];
}

abbrev unloaded : Engine
unloaded = record { idx = empty_index; loaded = false; load_err = none }

word-Occurs : Occurs go every_byte (policies (strict ∷ lenient ∷ [])) (word ∷ []) ushers word
word-Occurs = (head refl, cons≢nil, (117 ∷ 115 ∷ [], 114 ∷ 115 ∷ [], refl))

strict-blocks : blocks (policies (strict ∷ lenient ∷ []) 7) ≡ true
unfolding blocks
strict-blocks = refl

check-reload-blocks_example :
    (v : Verdict) × (check go none (reload go every_byte "" tables unloaded) ushers 0 ≡ some v)
    × (v.block ≡ true)
check-reload-blocks_example =
    check-reload-blocks go every_byte every_byte-all lower-IsText none "" tables unloaded ushers 0
      strict (lenient ∷ []) (word ∷ []) [] word refl refl refl refl word-Occurs strict-blocks

-- an audit hit and a blocking one
abbrev two_hits : List HitEntry
two_hits =
    (record { method = keyword; policy = lenient; evidence = []; score = 2 })
    ∷ (record { method = keyword; policy = strict; evidence = []; score = 1 })
    ∷ []

aggregate_lem_example :
    ((two_hits ≡ []) × (aggregate go two_hits ≡ no_verdict))
    ⊎ ((p : HitEntry) × Memᴰ p two_hits
        × Reports p (aggregate go two_hits)
        × ((aggregate go two_hits).hit ≡ true)
        × All (λ h. urgency go h ≤ urgency go p) two_hits
        × (((aggregate go two_hits).block ≡ true)
            ↔ ((h : HitEntry) × Memᴰ h two_hits × (blocks h.policy ≡ true))))
aggregate_lem_example = aggregate_lem go two_hits

-- three rows claimed, two read, and one vector where two are due
abbrev rows : List BuildRow
rows =
    (record { id = 1; text = 104 ∷ []; text_hash = "a" })
    ∷ (record { id = 2; text = 105 ∷ []; text_hash = "b" })
    ∷ []

abbrev answers : Answers
answers = record {
  claimed = ok 3;
  rows = ok rows;
  identity = λ n. "";
  embed = some (λ n inputs. ok ((1 ∷ []) ∷ []));
  embed_id = none;
  lands = λ r v stamp. true;
  reload_error = none;
}

build_vectors-total_example :
    (total (build_vectors trim answers).0 ≡ 3) × Looped trim answers 3 answers.rows
build_vectors-total_example = build_vectors-total trim answers 3 refl refl (omega arith)
