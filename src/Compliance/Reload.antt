-- ===== src/Compliance/Reload.antt =====
-- `Engine`, `New`, `Reload`, `Loaded`, `Check` and `Test` of internal/compliance/compliance.go. What the
-- database answers to the three queries of a reload is a parameter.
use Prim.Native.String.{String}
use text.Mathlib.Text.{◌==◌}
use yzapi.Base.{
  ℕ, suc, Bool, true, false, not, ◌&&◌, Option, none, some, List, [], ◌∷◌, if◌then◌else◌, update,
  Result, ok, err,
}
use yzapi.Health.Truncate.{Bytes}
use yzapi.Vector.{decode}
use yzapi.Compliance.{Go, Policy, WordEntry, SampleEntry, Index, unavailable, not_loaded, Verdict}
use yzapi.Compliance.Matcher.{new_matcher}
use yzapi.Compliance.Check.{is_nil, no_policy, no_verdict, check_loaded}

-- the rows of `PolicyGroup`, `SensitiveWord` and `AuditSample`, as far as they are read
pub record SensitiveWord : Type 0 where
  pub id : ℕ
  pub policy_group_id : ℕ
  pub word : Bytes

pub record AuditSample : Type 0 where
  pub id : ℕ
  pub policy_group_id : ℕ
  pub text : Bytes
  pub vector : List ℕ
  pub vector_model : String

-- the answers of the database: the enabled groups, and the enabled words and samples of some groups
pub record Tables : Type 0 where
  pub groups : Result Bytes (List Policy)
  pub words : List ℕ → Result Bytes (List SensitiveWord)
  pub samples : List ℕ → Result Bytes (List AuditSample)

-- `Engine`, as far as it changes
pub record Engine : Type 0 where
  pub idx : Index
  pub loaded : Bool
  pub load_err : Option Bytes

abbrev pub empty_index : Index
empty_index = record { ac = none; words = []; samples = []; stale = 0 }

-- pol, where a later group of the same id replaces an earlier one
abbrev pub put_policies : List Policy → (ℕ → Policy) → ℕ → Policy
put_policies [] pol = pol
put_policies (g ∷ gs) pol = put_policies gs (update pol g.id g)

abbrev pub policies : List Policy → ℕ → Policy
policies gs = put_policies gs (λ id. no_policy)

abbrev pub group_ids : List Policy → List ℕ
group_ids [] = []
group_ids (g ∷ gs) = g.id ∷ group_ids gs

abbrev pub word_entry : (ℕ → Policy) → SensitiveWord → WordEntry
word_entry pol w = record { id = w.id; word = w.word; policy = pol w.policy_group_id }

-- s.VectorModel != "" && cur != "" && s.VectorModel != cur
abbrev other_model : String → AuditSample → Bool
other_model cur s = not (s.vector_model == "") && not (cur == "") && not (s.vector_model == cur)

abbrev sample_entry : (ℕ → Policy) → AuditSample → SampleEntry
sample_entry pol s = record {
  id = s.id;
  text = s.text;
  vec = decode s.vector;
  policy = pol s.policy_group_id;
}

-- the loop over the samples: those that can be used, and how many cannot
unfoldable pub load_samples : (ℕ → Policy) → String → List AuditSample → List SampleEntry × ℕ
unfolding decode
load_samples pol cur [] = ([], 0)
load_samples pol cur (s ∷ ss) =
    let rest = load_samples pol cur ss in
    if is_nil s.vector
    then rest
    else if other_model cur s
    then (rest.0, suc rest.1)
    else (sample_entry pol s ∷ rest.0, rest.1)

module _ (go : Go) (order : ℕ → List ℕ) where
  abbrev pub pattern_of : SensitiveWord → Bytes
  pattern_of w = go.lower (go.trim w.word)

  -- the loop over the words: `idx.words` and `patterns`
  unfoldable pub load_words : (ℕ → Policy) → List SensitiveWord → List WordEntry × List Bytes
  load_words pol [] = ([], [])
  load_words pol (w ∷ ws) =
      let rest = load_words pol ws in
      if is_nil (pattern_of w) then rest else (word_entry pol w ∷ rest.0, pattern_of w ∷ rest.1)

  abbrev pub index_of : List WordEntry × List Bytes → List SampleEntry × ℕ → Index
  index_of ws ss = record {
    ac = some (new_matcher order ws.1);
    words = ws.0;
    samples = ss.0;
    stale = ss.1;
  }

  abbrev load_rest :
      (ℕ → Policy)
      → String
      → List SensitiveWord
      → Result Bytes (List AuditSample)
      → Result Bytes Index
  load_rest pol cur ws (err e) = err e
  load_rest pol cur ws (ok ss) = ok (index_of (load_words pol ws) (load_samples pol cur ss))

  abbrev load_both :
      (ℕ → Policy)
      → String
      → Result Bytes (List SensitiveWord)
      → Result Bytes (List AuditSample)
      → Result Bytes Index
  load_both pol cur (err e) ss = err e
  load_both pol cur (ok ws) ss = load_rest pol cur ws ss

  -- `reload`, up to the store of the index
  abbrev pub reload_index : String → Tables → Result Bytes (List Policy) → Result Bytes Index
  reload_index cur db (err e) = err e
  reload_index cur db (ok []) = ok empty_index
  reload_index cur db (ok (g ∷ gs)) =
      let ids = group_ids (g ∷ gs) in
      load_both (policies (g ∷ gs)) cur (db.words ids) (db.samples ids)

  abbrev after_reload : Engine → Result Bytes Index → Engine
  after_reload e (err msg) = record e { load_err = some msg }
  after_reload e (ok idx) = record { idx = idx; loaded = true; load_err = none }

  -- `Reload`
  unfoldable pub reload : String → Tables → Engine → Engine
  unfolding load_words load_samples
  reload cur db e = after_reload e (reload_index cur db db.groups)

  -- `New`
  abbrev pub new_engine : String → Tables → Engine
  new_engine cur db = reload cur db (record { idx = empty_index; loaded = false; load_err = none })

-- `Loaded`
abbrev load_answer : Option Bytes → Bool → Bool × Bytes
load_answer none loaded = (loaded, [])
load_answer (some msg) true = (true, [])
load_answer (some msg) false = (false, msg)

abbrev pub loaded_or_why : Engine → Bool × Bytes
loaded_or_why e = load_answer e.load_err e.loaded

-- "compliance rules not loaded"
abbrev rules_not_loaded : Bytes
rules_not_loaded =
    99 ∷ 111 ∷ 109 ∷ 112 ∷ 108 ∷ 105 ∷ 97 ∷ 110 ∷ 99 ∷ 101 ∷ 32 ∷ 114 ∷ 117 ∷ 108 ∷ 101 ∷ 115 ∷ 32
    ∷ 110 ∷ 111 ∷ 116 ∷ 32 ∷ 108 ∷ 111 ∷ 97 ∷ 100 ∷ 101 ∷ 100 ∷ []

-- the verdict of an engine that never had any rules
abbrev pub refusal : Bytes → Verdict
refusal why = record {
  hit = true;
  block = true;
  detect_method = some unavailable;
  policy = record { id = 0; name = ""; action = "block"; risk_level = "high" };
  evidence = rules_not_loaded;
  confidence = 0;
  hits = [];
  degraded = some (not_loaded why);
}

module _ (go : Go) (embed : Option (Bytes → Result Bytes (List (List ℕ)))) where
  -- `check`
  unfoldable pub check : Engine → Bytes → ℕ → Option Verdict
  unfolding check_loaded
  check e text threshold =
      if (loaded_or_why e).0
      then check_loaded go embed e.idx text threshold
      else some (refusal (loaded_or_why e).1)

  -- `Check`; `Test` is `check`
  abbrev pub check_enabled : Bool → Engine → Bytes → ℕ → Option Verdict
  check_enabled enabled e text threshold =
      if enabled then check e text threshold else some no_verdict
