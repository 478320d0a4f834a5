-- ===== src/Compliance.antt =====
-- The content-compliance engine of internal/compliance: its data, and what it takes from Go. A float64 or
-- float32 stands for its bits, as in the stored vectors; texts that are searched are lists of bytes.
pub mod Matcher
pub mod Check
pub mod Reload
pub mod Primary
pub mod Words
pub mod Keywords
pub mod Vectors
mod Tests
use yzapi.Base.{ℕ, Bool, Option, List, String}
use yzapi.Health.Truncate.{Bytes}
use yzapi.Compliance.Matcher.{Matcher as Automaton}

-- Go's arithmetic on floats, by their bits, and its functions on texts
pub record Go : Type 0 where
  -- a > b and a >= b
  pub above : ℕ → ℕ → Bool
  pub at_least : ℕ → ℕ → Bool
  pub plus : ℕ → ℕ → ℕ
  pub times : ℕ → ℕ → ℕ
  pub over : ℕ → ℕ → ℕ
  -- float64(int64(x)), float64 of a float32
  pub whole : ℕ → ℕ
  pub widen : ℕ → ℕ
  -- `strings.ToLower` on texts and on names, `strings.TrimSpace`
  pub lower : Bytes → Bytes
  pub lower_name : String → String
  pub trim : Bytes → Bytes
  -- []rune(s) and string(r)
  pub runes : Bytes → List ℕ
  pub of_runes : List ℕ → Bytes

-- `policy`
pub record Policy : Type 0 where
  pub id : ℕ
  pub name : String
  pub action : String
  pub risk_level : String

-- `wordEntry`
pub record WordEntry : Type 0 where
  pub id : ℕ
  pub word : Bytes
  pub policy : Policy

-- `sampleEntry`
pub record SampleEntry : Type 0 where
  pub id : ℕ
  pub text : Bytes
  pub vec : List ℕ
  pub policy : Policy

-- `index`
pub record Index : Type 0 where
  pub ac : Option Automaton
  pub words : List WordEntry
  pub samples : List SampleEntry
  pub stale : ℕ

-- `HitEntry`
pub data Method : Type 0 where
  keyword semantic unavailable : Method

pub record HitEntry : Type 0 where
  pub method : Method
  pub policy : Policy
  pub evidence : Bytes
  pub score : ℕ

-- why a pass could not run
pub data Reason : Type 0 where
  not_loaded : Bytes → Reason
  stale_samples : ℕ → Reason
  embedding_failed : Bytes → Reason
  no_vector : Reason
  no_dimension : ℕ → Reason

-- `Verdict`; `policy` is its action, risk level, policy group and policy id, `hits` what is encoded as JSON,
-- and `degraded` the reason, where there is one
pub record Verdict : Type 0 where
  pub hit : Bool
  pub block : Bool
  pub detect_method : Option Method
  pub policy : Policy
  pub evidence : Bytes
  pub confidence : ℕ
  pub hits : List HitEntry
  pub degraded : Option Reason
