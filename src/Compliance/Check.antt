-- ===== src/Compliance/Check.antt =====
-- `check` of internal/compliance/compliance.go: the keyword pass, the semantic pass and the verdict.
use Prim.Native.String.{String}
use text.Mathlib.Text.{◌==◌}
use yzapi.Base.{
  ℕ, zero, suc, Bool, true, false, not, ◌&&◌, Option, none, some, List, [], ◌∷◌, ◌++◌, ltb, length,
  take, if◌then◌else◌, ◌>>=◌, Result, ok, err,
}
use yzapi.Base as Base
use yzapi.Health.Truncate.{Bytes}
use yzapi.Compliance.{
  Go, Policy, WordEntry, SampleEntry, Index, keyword, semantic, HitEntry, Reason, stale_samples,
  embedding_failed, no_vector, no_dimension, Verdict,
}
use yzapi.Compliance.Matcher.{match_all}

abbrev pub same_bytes : Bytes → Bytes → Bool
same_bytes [] [] = true
same_bytes [] (d ∷ s) = false
same_bytes (c ∷ p) [] = false
same_bytes (c ∷ p) (d ∷ s) = Base.◌==◌ c d && same_bytes p s

abbrev pub is_nil {ℓ} : {A : Type ℓ} → List A → Bool
is_nil [] = true
is_nil (x ∷ xs) = false

abbrev pub no_policy : Policy
no_policy = record { id = 0; name = ""; action = ""; risk_level = "" }

-- Verdict{}
abbrev pub no_verdict : Verdict
no_verdict = record {
  hit = false;
  block = false;
  detect_method = none;
  policy = no_policy;
  evidence = [];
  confidence = 0;
  hits = [];
  degraded = none;
}

unfoldable pub blocks : Policy → Bool
blocks p = p.action == "block"

-- an index out of range is a panic
abbrev pub word_at : List WordEntry → ℕ → Option WordEntry
word_at [] i = none
word_at (w ∷ ws) zero = some w
word_at (w ∷ ws) (suc i) = word_at ws i

-- 1.0
abbrev one_bits : ℕ
one_bits = 4_607_182_418_800_017_408

abbrev pub keyword_hit : WordEntry → HitEntry
keyword_hit w = record { method = keyword; policy = w.policy; evidence = w.word; score = one_bits }

-- the loop over what `Match` lists
unfoldable pub hits_at : List WordEntry → List ℕ → Option (List HitEntry)
hits_at ws [] = some []
hits_at ws (i ∷ is) = word_at ws i >>= λ w. hits_at ws is >>= λ hits. some (keyword_hit w ∷ hits)

abbrev pub degrade : Reason → Verdict → Verdict
degrade r v = record v { degraded = some r }

-- the verdict of hits, with the same hits sorted
abbrev pub verdict_of : List HitEntry → List HitEntry → Verdict
verdict_of hits [] = no_verdict
verdict_of hits (p ∷ rest) = record {
  hit = true;
  block = blocks p.policy;
  detect_method = some p.method;
  policy = p.policy;
  evidence = p.evidence;
  confidence = p.score;
  hits = hits;
  degraded = none;
}

module _ (go : Go) where
  unfoldable pub keyword_pass : Index → Bytes → Option (List HitEntry)
  unfolding hits_at
  keyword_pass idx text = elim idx.ac [
    | none ↦ some []
    | some ac ↦
        if is_nil idx.words then some [] else hits_at idx.words (match_all ac (go.lower text))
  ]

  -- `riskRank`
  unfoldable pub risk_rank : String → ℕ
  risk_rank level =
      let name = go.lower_name level in
      if name == "high" then 3 else if name == "medium" then 2 else if name == "low" then 1 else 0

  -- the order of `SliceStable`
  abbrev pub less : HitEntry → HitEntry → Bool
  less a b =
      if blocks a.policy && not (blocks b.policy)
      then true
      else if not (blocks a.policy) && blocks b.policy
      then false
      else if ltb (risk_rank b.policy.risk_level) (risk_rank a.policy.risk_level)
      then true
      else if ltb (risk_rank a.policy.risk_level) (risk_rank b.policy.risk_level)
      then false
      else go.above a.score b.score

  -- `sort.SliceStable`; a score is a number, so the order is total and every stable sort gives this list
  unfoldable pub insert_hit : HitEntry → List HitEntry → List HitEntry
  insert_hit h [] = h ∷ []
  insert_hit h (x ∷ xs) = let rest = insert_hit h xs in if less x h then x ∷ rest else h ∷ x ∷ xs

  unfoldable pub sort_stable : List HitEntry → List HitEntry
  sort_stable [] = []
  sort_stable (h ∷ hits) = insert_hit h (sort_stable hits)

  -- `aggregate`
  unfoldable pub aggregate : List HitEntry → Verdict
  unfolding sort_stable
  aggregate hits = verdict_of hits (sort_stable hits)

  -- `vector.Dot`
  unfoldable pub dot_from : ℕ → List ℕ → List ℕ → ℕ
  dot_from s [] b = s
  dot_from s (x ∷ a) [] = s
  dot_from s (x ∷ a) (y ∷ b) = dot_from (go.plus s (go.times (go.widen x) (go.widen y))) a b

  -- `round4`: 10000.0 and 0.5
  abbrev round4 : ℕ → ℕ
  round4 f =
      go.over (go.whole (go.plus (go.times f 4_666_723_172_467_343_360) 4_602_678_819_172_646_912))
        4_666_723_172_467_343_360

  abbrev truncate_runes : Bytes → ℕ → Bytes
  truncate_runes s n =
      if Base.leb (length (go.runes s)) n then s else go.of_runes (take n (go.runes s))

  abbrev pub semantic_hit : SampleEntry → ℕ → HitEntry
  semantic_hit s score = record {
    method = semantic;
    policy = s.policy;
    evidence = truncate_runes s.text 200;
    score = round4 score;
  }

  -- the loop over the samples: how many can be compared, and their hits
  unfoldable pub compare_samples : List ℕ → ℕ → List SampleEntry → ℕ × List HitEntry
  unfolding dot_from
  compare_samples q threshold [] = (0, [])
  compare_samples q threshold (s ∷ ss) =
      let rest = compare_samples q threshold ss in
      let score = dot_from 0 q s.vec in
      if not (Base.◌==◌ (length s.vec) (length q))
      then rest
      else if go.at_least score threshold
      then (suc rest.0, semantic_hit s score ∷ rest.1)
      else (suc rest.0, rest.1)

  -- the threshold that is used: 0.85 where none is set
  abbrev pub threshold_used : ℕ → ℕ
  threshold_used t = if go.at_least 0 t then 4_605_831_338_911_806_259 else t

  abbrev pub compared : ℕ → List HitEntry → ℕ × List HitEntry → Verdict
  compared q hits (zero, more) = degrade (no_dimension q) (aggregate (hits ++ more))
  compared q hits (suc n, more) = aggregate (hits ++ more)

  -- what follows the call of the embedding service
  unfoldable pub after_embed :
      List HitEntry → ℕ → List SampleEntry → Result Bytes (List (List ℕ)) → Verdict
  unfolding aggregate compare_samples
  after_embed hits t samples (err e) = degrade (embedding_failed e) (aggregate hits)
  after_embed hits t samples (ok []) = degrade no_vector (aggregate hits)
  after_embed hits t samples (ok ([] ∷ [])) = degrade no_vector (aggregate hits)
  after_embed hits t samples (ok ((x ∷ q) ∷ [])) =
      compared (length (x ∷ q)) hits (compare_samples (x ∷ q) (threshold_used t) samples)
  after_embed hits t samples (ok (v ∷ w ∷ vs)) = degrade no_vector (aggregate hits)

  module _ (embed : Option (Bytes → Result Bytes (List (List ℕ)))) where
    unfoldable pub semantic_pass : Index → Bytes → ℕ → List HitEntry → Verdict
    unfolding aggregate after_embed
    semantic_pass idx text threshold hits =
        if is_nil idx.samples
        then (if ltb 0 idx.stale
            then degrade (stale_samples idx.stale) (aggregate hits)
            else aggregate hits)
        else elim embed [
          | none ↦ aggregate hits
          | some f ↦ after_embed hits threshold idx.samples (f text)
        ]

    -- `check`, from where the rules are loaded; `none` is a panic
    unfoldable pub check_loaded : Index → Bytes → ℕ → Option Verdict
    unfolding keyword_pass semantic_pass
    check_loaded idx text threshold =
        if is_nil (go.trim text)
        then some no_verdict
        else (keyword_pass idx text >>= λ hits. some (semantic_pass idx text threshold hits))
