-- ===== src/Prices.antt =====
-- `Service` of internal/pricing/pricing.go: the price of a model, and the cost of a request. Texts are bytes;
-- a float64 stands for its bits, and the arithmetic on floats is a parameter.
pub mod Found
pub mod Costs
pub mod Filed
mod Tests
use Prim.Native.String.{String}
use text.Mathlib.Text.{◌==◌}
use yzapi.Base.{
  ℕ, Bool, true, false, ◌&&◌, ◌||◌, Option, none, some, List, [], ◌∷◌, ◌++◌, ltb, length,
  if◌then◌else◌,
}
use yzapi.Base as Base
use yzapi.Base.Int.{ℤ, pos, ltb_ℤ, ◌-ℤ◌}
use yzapi.Base.Texts.{put}
use yzapi.Health.Truncate.{Bytes}
use yzapi.FirstContent.{has_prefix}

-- `ModelPrice`, as far as it is read
pub record ModelPrice : Type 0 where
  pub id : ℕ
  pub pattern : Bytes
  pub provider : String
  pub input_per_m : ℕ
  pub output_per_m : ℕ
  pub cached_input_per_m : ℕ
  pub cache_write_per_m : ℕ
  pub currency : String

-- Go's functions on texts and floats
pub record Go : Type 0 where
  pub lower : Bytes → Bytes
  pub trim : Bytes → Bytes
  pub lower_name : String → String
  pub upper_name : String → String
  -- 0 >= f
  pub not_positive : ℕ → Bool
  pub plus : ℕ → ℕ → ℕ
  pub times : ℕ → ℕ → ℕ
  pub over : ℕ → ℕ → ℕ
  -- float64 of an int64, and int64(math.Round(f))
  pub of_int : ℤ → ℕ
  pub rounded : ℕ → ℤ

-- the text after the last "/", where there is one
unfoldable pub last_segment : Bytes → Option Bytes
last_segment [] = none
last_segment (c ∷ s) =
    let rest = last_segment s in
    elim rest [ some t ↦ some t | none ↦ if Base.◌==◌ c 47 then some s else none ]

abbrev or_all : Bytes → Option Bytes → Bytes
or_all s none = s
or_all s (some t) = t

abbrev pub same_text : Bytes → Bytes → Bool
same_text [] [] = true
same_text [] (d ∷ s) = false
same_text (c ∷ p) [] = false
same_text (c ∷ p) (d ∷ s) = Base.◌==◌ c d && same_text p s

-- the test of a pattern: the name, or its start before "-", ":" or "@"
unfoldable pub fits_pattern : Bytes → Bytes → Bool
unfolding has_prefix
fits_pattern name pat =
    same_text name pat
    || has_prefix (pat ++ (45 ∷ [])) name
    || has_prefix (pat ++ (58 ∷ [])) name
    || has_prefix (pat ++ (64 ∷ [])) name

-- all rows, in the order in which the map is walked
unfoldable pub all_rows : (String → List ModelPrice) → List String → List ModelPrice
all_rows by [] = []
all_rows by (k ∷ keys) = by k ++ all_rows by keys

-- the rows of a key; "*" stands for all
abbrev pub rows_for : (String → List ModelPrice) → List String → String → List ModelPrice
rows_for by keys key = if key == "*" then all_rows by keys else by key

abbrev pub or_next : Option ModelPrice → Option ModelPrice → Option ModelPrice
or_next none next = next
or_next (some r) next = some r

-- if cached > prompt { cached = prompt }, and the like
abbrev pub at_most : ℤ → ℤ → ℤ
at_most limit n = if ltb_ℤ limit n then limit else n

-- how the prompt is split: plain, read from the cache, written into it
unfoldable pub split : ℤ → ℤ → ℤ → ℤ × ℤ × ℤ
unfolding ◌-ℤ◌
split prompt cached cache_write =
    let c = at_most prompt cached in
    let w = at_most (prompt -ℤ c) cache_write in (prompt -ℤ c -ℤ w, c, w)

module _ (go : Go) where
  abbrev pub name_of : Bytes → Bytes
  name_of model = let name = go.lower (go.trim model) in or_all name (last_segment name)

  -- m[k] = append(m[k], r), for every enabled row
  unfoldable pub file_rows : List ModelPrice → (String → List ModelPrice) → String → List ModelPrice
  file_rows [] m = m
  file_rows (r ∷ rows) m =
      let k = go.lower_name r.provider in file_rows rows (put m k (m k ++ (r ∷ [])))

  -- `Reload`, from the enabled rows
  abbrev pub reload : List ModelPrice → String → List ModelPrice
  reload rows = file_rows rows (λ k. [])

  abbrev pub pattern_of : ModelPrice → Bytes
  pattern_of r = go.lower r.pattern

  abbrev pub fits_row : Bytes → ModelPrice → Bool
  fits_row name r = fits_pattern name (pattern_of r)

  -- `best` and `bestLen` after a row
  abbrev pub better : Bytes → ModelPrice → Option ModelPrice → Option ModelPrice
  better name r none = if fits_row name r then some r else none
  better name r (some best) =
      if fits_row name r && ltb (length (pattern_of best)) (length (pattern_of r))
      then some r
      else some best

  -- the loop over the rows of a key
  unfoldable pub best_of : Bytes → List ModelPrice → Option ModelPrice → Option ModelPrice
  unfolding fits_pattern
  best_of name [] best = best
  best_of name (r ∷ rows) best = best_of name rows (better name r best)

  -- `Lookup`; `keys` are the keys of the map, in the order of the walk
  unfoldable pub lookup :
      (String → List ModelPrice) → List String → String → Bytes → Option ModelPrice
  unfolding best_of all_rows last_segment
  lookup by keys provider model =
      let name = name_of model in
      or_next (best_of name (rows_for by keys (go.lower_name provider)) none) (
        or_next (best_of name (rows_for by keys "") none)
          (best_of name (rows_for by keys "*") none))

  abbrev pub write_price : ModelPrice → ℕ
  write_price p = if go.not_positive p.cache_write_per_m then p.input_per_m else p.cache_write_per_m

  -- `toLedger`, at a rate
  abbrev pub to_ledger : ℕ → ℕ → String → ℕ
  to_ledger rate amount from = if go.upper_name from == "CNY" then go.over amount rate else amount

  -- the amount of a split, with 1e6
  abbrev pub amount_of : ModelPrice → ℤ × ℤ × ℤ → ℤ → ℕ
  amount_of p (plain, c, w) completion =
      go.over
        (go.plus
          (go.plus
            (go.plus (go.times (go.of_int plain) p.input_per_m)
              (go.times (go.of_int c) p.cached_input_per_m))
            (go.times (go.of_int w) (write_price p)))
          (go.times (go.of_int completion) p.output_per_m))
        4_696_837_146_684_686_336

  abbrev pub cost_of : ℕ → ModelPrice → ℤ × ℤ × ℤ → ℤ → ℤ
  cost_of rate p parts completion = go.rounded (
      go.times (to_ledger rate (amount_of p parts completion) p.currency) 4_696_837_146_684_686_336)

  abbrev priced : ℕ → Option ModelPrice → ℤ → ℤ → ℤ → ℤ → ℤ × Bool
  priced rate none prompt completion cached cache_write = (pos 0, false)
  priced rate (some p) prompt completion cached cache_write =
      (cost_of rate p (split prompt cached cache_write) completion, true)

  -- `Cost`
  unfoldable pub cost :
      (String → List ModelPrice) → List String → ℕ → String → Bytes → ℤ → ℤ → ℤ → ℤ → ℤ × Bool
  unfolding lookup split
  cost by keys rate provider model prompt completion cached cache_write =
      priced rate (lookup by keys provider model) prompt completion cached cache_write
