-- ===== src/RateLimit/Window.antt =====
-- `rateWindow` of internal/gateway/ratelimit.go. An array of 60 is a function, read below 60 only.
pub mod Spec
pub mod Steps
use yzapi.Base.{ℕ, ◌+◌, ◌/◌, ◌%◌, ◌^◌, leb, ◌==◌, if◌then◌else◌, update, sum_below}
use yzapi.Base.Int.{ℤ, pos_part}

pub record RateWindow : Type 0 where
  pub reqs : ℕ → ℕ
  pub toks : ℕ → ℕ
  pub stamps : ℕ → ℕ
  pub seen : ℕ

-- `&rateWindow{}`
abbrev pub zero_window : RateWindow
zero_window = record { reqs = λ i. 0; toks = λ i. 0; stamps = λ i. 0; seen = 0 }

abbrev pub second : ℕ
second = 1_000_000_000

-- `now.Unix()`
abbrev pub unix : ℕ → ℕ
unix now = now / second

-- `slot`: a slot that stands for another second is cleared and restamped
pub slot : RateWindow → ℕ → RateWindow × ℕ
slot w now =
    let sec = unix now in
    let i = sec % 60 in
    if w.stamps i == sec then (w, i) else (
      record w {
        stamps = update w.stamps i sec;
        reqs = update w.reqs i 0;
        toks = update w.toks i 0;
      },
      i,
    )

-- `sums`: `stamps[i] >= now.Unix() - 59`, with no subtraction
unfoldable pub sums : RateWindow → ℕ → ℕ × ℕ
unfolding sum_below
sums w now = (
  sum_below 60 (λ i. if leb (unix now) (w.stamps i + 59) then w.reqs i else 0),
  sum_below 60 (λ i. if leb (unix now) (w.stamps i + 59) then w.toks i else 0),
)

-- `w.reqs[w.slot(now)]++`
unfoldable pub count_request : RateWindow → ℕ → RateWindow
unfolding slot
count_request w now = let (v, i) = slot w now in record v { reqs = update v.reqs i (v.reqs i + 1) }

-- `w.toks[w.slot(now)] += n`, where `n` is positive
unfoldable pub book_tokens : RateWindow → ℕ → ℤ → RateWindow
unfolding slot
book_tokens w now n =
    let (v, i) = slot w now in record v { toks = update v.toks i (v.toks i + pos_part n) }
