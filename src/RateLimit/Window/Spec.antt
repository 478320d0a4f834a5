-- ===== src/RateLimit/Window/Spec.antt =====
-- The window as a log of events: what the ring buffer of internal/gateway/ratelimit.go stands for.
use yzapi.Base.{
  ℕ, ◌+◌, ◌%◌, ◌≤◌, ◌<◌, ◌≡◌, ◌≢◌, ◌⊎◌, ◌∙◌, List, [], ◌∷◌, leb, ◌==◌, if◌then◌else◌, arith,
  sum_below, sum_below-add, sum_below-single, sum_below-zero, sum_below-eq,
}
use yzapi.RateLimit.Window.{RateWindow, unix, sums}

-- What one call booked: the second, and the requests and tokens.
pub record Event : Type 0 where
  pub at : ℕ
  pub reqs : ℕ
  pub toks : ℕ

-- The amounts booked in the 60 seconds that end with second `now`.
unfoldable pub spent : (Event → ℕ) → ℕ → List Event → ℕ
spent f now [] = 0
spent f now (e ∷ h) = (if leb now (e.at + 59) then f e else 0) + spent f now h

-- The amounts booked in one second.
unfoldable pub at_second : (Event → ℕ) → ℕ → List Event → ℕ
at_second f s [] = 0
at_second f s (e ∷ h) = (if e.at == s then f e else 0) + at_second f s h

-- An event is in its slot, or too old to count.
abbrev pub Kept : (ℕ → ℕ) → ℕ → List Event → Type 0
Kept stamps last [] = Unit {0}
Kept stamps last (e ∷ h) =
    ((0 < e.at) × (e.at ≤ last) × ((stamps (e.at % 60) ≡ e.at) ⊎ (e.at + 60 ≤ last)))
    × Kept stamps last h

-- The buffer holds the log `h`, whose last event is not later than second `last`.
pub record Tracks (w : RateWindow) (h : List Event) (last : ℕ) : Type 0 where
  pub requests : (i : ℕ) → i < 60 → w.reqs i ≡ at_second (λ e. e.reqs) (w.stamps i) h
  pub tokens : (i : ℕ) → i < 60 → w.toks i ≡ at_second (λ e. e.toks) (w.stamps i) h
  pub home : (i : ℕ) → i < 60 → (w.stamps i ≡ 0) ⊎ (w.stamps i % 60 ≡ i)
  pub past : (i : ℕ) → i < 60 → w.stamps i ≤ last
  pub kept : Kept w.stamps last h

abbrev term : (Event → ℕ) → (ℕ → ℕ) → ℕ → List Event → ℕ → ℕ
term f stamps now h i = if leb now (stamps i + 59) then at_second f (stamps i) h else 0

module _ (f : Event → ℕ) (stamps : ℕ → ℕ) (last now : ℕ) (later : last ≤ now)
    (home : (i : ℕ) → i < 60 → (stamps i ≡ 0) ⊎ (stamps i % 60 ≡ i)) where
  abbrev one : Event → ℕ → ℕ
  one e i = if leb now (stamps i + 59) then (if e.at == stamps i then f e else 0) else 0

  one-elsewhere : (e : Event) → 0 < e.at → (i : ℕ) → i < 60 → i ≢ e.at % 60 → one e i ≡ 0
  one-elsewhere e p i lt ne = ground (arith, home i lt)

  one-home :
      (e : Event)
      → (0 < e.at) × (e.at ≤ last) × ((stamps (e.at % 60) ≡ e.at) ⊎ (e.at + 60 ≤ last))
      → one e (e.at % 60) ≡ (if leb now (e.at + 59) then f e else 0)
  one-home e k = ground arith

  -- The sum over the slots is the sum over the events.
  slots-eq-spent :
      (h : List Event) → Kept stamps last h → sum_below 60 (term f stamps now h) ≡ spent f now h
  unfolding at_second spent
  slots-eq-spent [] k = sum_below-zero 60 _ (λ i lt. ground arith)
  slots-eq-spent (e ∷ h) k = omega (
    arith,
    sum_below-add 60 (one e) (term f stamps now h) (term f stamps now (e ∷ h))
        (λ i lt. ground arith),
    sum_below-single 60 (e.at % 60) (one e) (omega arith) (one-elsewhere e k.0.0),
    one-home e k.0,
    slots-eq-spent h k.1,
  )

-- What `sums` adds up is what the log says of the last 60 seconds.
pub sums-eq-spent :
    (w : RateWindow) (h : List Event) (last now : ℕ)
    → last ≤ unix now
    → Tracks w h last
    → sums w now ≡ (spent (λ e. e.reqs) (unix now) h, spent (λ e. e.toks) (unix now) h)
unfolding sums
sums-eq-spent w h last now later t = λ i. (reqs i, toks i)
  where
    reqs : (sums w now).0 ≡ spent (λ e. e.reqs) (unix now) h
    reqs =
        sum_below-eq 60 (λ i. if leb (unix now) (w.stamps i + 59) then w.reqs i else 0)
          (term (λ e. e.reqs) w.stamps (unix now) h) (λ i lt. ground (arith, t.requests i lt))
        ∙ slots-eq-spent (λ e. e.reqs) w.stamps last (unix now) later t.home h t.kept

    toks : (sums w now).1 ≡ spent (λ e. e.toks) (unix now) h
    toks =
        sum_below-eq 60 (λ i. if leb (unix now) (w.stamps i + 59) then w.toks i else 0)
          (term (λ e. e.toks) w.stamps (unix now) h) (λ i lt. ground (arith, t.tokens i lt))
        ∙ slots-eq-spent (λ e. e.toks) w.stamps last (unix now) later t.home h t.kept
