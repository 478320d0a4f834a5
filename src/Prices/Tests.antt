-- ===== src/Prices/Tests.antt =====
-- internal/pricing/pricing.go with three rows: "gpt-5" of two providers, and "gpt-5-mini" of none.
use Prim.Native.String.{String}
use yzapi.Base.{ℕ, ◌+◌, ◌*◌, ◌/◌, ◌≡◌, refl, some, List, [], ◌∷◌, leb}
use yzapi.Base.Int.{ℤ, pos, negsuc}
use yzapi.FirstContent.{has_prefix}
use yzapi.Health.Truncate.{Bytes}
use yzapi.Prices.{
  ModelPrice, Go, reload, file_rows, all_rows, lookup, best_of, fits_pattern, last_segment,
}

abbrev rounded : ℕ → ℤ
rounded f = pos f

abbrev of_int : ℤ → ℕ
of_int (pos n) = n
of_int (negsuc n) = 0

abbrev go : Go
go = record {
  lower = λ s. s;
  trim = λ s. s;
  lower_name = λ s. s;
  upper_name = λ s. s;
  not_positive = λ f. leb f 0;
  plus = λ a b. a + b;
  times = λ a b. a * b;
  over = λ a b. a / b;
  of_int = of_int;
  rounded = rounded;
}

-- "gpt-5" and "gpt-5-mini"
abbrev gpt_5 : Bytes
gpt_5 = 103 ∷ 112 ∷ 116 ∷ 45 ∷ 53 ∷ []

abbrev gpt_5_mini : Bytes
gpt_5_mini = 103 ∷ 112 ∷ 116 ∷ 45 ∷ 53 ∷ 45 ∷ 109 ∷ 105 ∷ 110 ∷ 105 ∷ []

-- "openai/gpt-5-mini-2025"
abbrev asked : Bytes
asked =
    111 ∷ 112 ∷ 101 ∷ 110 ∷ 97 ∷ 105 ∷ 47 ∷ 103 ∷ 112 ∷ 116 ∷ 45 ∷ 53 ∷ 45 ∷ 109 ∷ 105 ∷ 110 ∷ 105
    ∷ 45 ∷ 50 ∷ 48 ∷ 50 ∷ 53 ∷ []

abbrev row : ℕ → Bytes → String → ModelPrice
row id pattern provider = record {
  id = id;
  pattern = pattern;
  provider = provider;
  input_per_m = 10;
  output_per_m = 30;
  cached_input_per_m = 1;
  cache_write_per_m = 0;
  currency = "USD";
}

abbrev rows : List ModelPrice
rows = row 1 gpt_5 "openai" ∷ row 2 gpt_5 "azure" ∷ row 3 gpt_5_mini "" ∷ []

abbrev keys : List String
keys = "openai" ∷ "azure" ∷ "" ∷ []

own_row : lookup go (reload go rows) keys "openai" asked ≡ some (row 1 gpt_5 "openai")
unfolding lookup file_rows best_of fits_pattern last_segment has_prefix all_rows
own_row = refl

row_of_none : lookup go (reload go rows) keys "custom" asked ≡ some (row 3 gpt_5_mini "")
unfolding lookup file_rows best_of fits_pattern last_segment has_prefix all_rows
row_of_none = refl

-- A provider without rows: the price of "gpt-5" is that of the provider that the walk of the map meets first.
first_walked :
    lookup go (reload go rows) ("openai" ∷ "azure" ∷ []) "custom" gpt_5
    ≡ some (row 1 gpt_5 "openai")
unfolding lookup file_rows best_of fits_pattern last_segment has_prefix all_rows
first_walked = refl

other_walk :
    lookup go (reload go rows) ("azure" ∷ "openai" ∷ []) "custom" gpt_5 ≡ some (row 2 gpt_5 "azure")
unfolding lookup file_rows best_of fits_pattern last_segment has_prefix all_rows
other_walk = refl
