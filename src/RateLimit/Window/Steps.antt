-- ===== src/RateLimit/Window/Steps.antt =====
-- Each write to the window of internal/gateway/ratelimit.go adds one event to its log.
use yzapi.Base.{
  ℕ, ◌+◌, ◌%◌, ◌≤◌, ◌<◌, ◌≡◌, ◌≢◌, inl, inr, refl, sym, ◌∙◌, List, [], ◌∷◌, ◌==◌, if◌then◌else◌,
  arith, update, Bool-cases,
}
use yzapi.Base.Int.{ℤ, pos_part}
use yzapi.RateLimit.Window.{RateWindow, unix, slot, count_request, book_tokens, zero_window}
use yzapi.RateLimit.Window.Spec.{Event, at_second, Kept, Tracks}

module _ (stamps : ℕ → ℕ) (last sec : ℕ) (later : last ≤ sec)
    (stale : stamps (sec % 60) ≢ sec) where
  at_second-stale : (f : Event → ℕ) (h : List Event) → Kept stamps last h → at_second f sec h ≡ 0
  unfolding at_second
  at_second-stale f [] k = refl
  at_second-stale f (e ∷ h) k = ground (arith, at_second-stale f h k.1)

  Kept-restamp : (h : List Event) → Kept stamps last h → Kept (update stamps (sec % 60) sec) sec h
  Kept-restamp [] k = tt
  Kept-restamp (e ∷ h) k = ((k.0.0, omega arith, ground arith), Kept-restamp h k.1)

Kept-later : (stamps : ℕ → ℕ) (a b : ℕ) (h : List Event) → a ≤ b → Kept stamps a h → Kept stamps b h
Kept-later stamps a b [] le k = tt
Kept-later stamps a b (e ∷ h) le k =
    ((k.0.0, omega arith, ground arith), Kept-later stamps a b h le k.1)

-- Choosing the slot changes nothing of what the window stands for.
slot-Tracks :
    (w : RateWindow) (h : List Event) (last now : ℕ)
    → last ≤ unix now
    → Tracks w h last
    → Tracks (slot w now).0 h (unix now)
unfolding slot
slot-Tracks w h last now later t = elim (Bool-cases (w.stamps (unix now % 60) == unix now)) [
  | inl same ↦
      rw (same, slot)
        (record {
          requests = t.requests;
          tokens = t.tokens;
          home = t.home;
          past = λ i lt. omega (arith, t.past i lt);
          kept = Kept-later w.stamps last (unix now) h later t.kept;
        })
  | inr other ↦
      let stale : w.stamps (unix now % 60) ≢ unix now = ground arith in
      rw (other, slot)
        (record {
          requests = λ i lt. ground (
            arith,
            t.requests i lt,
            at_second-stale w.stamps last (unix now) later stale (λ e. e.reqs) h t.kept,
          );
          tokens = λ i lt. ground (
            arith,
            t.tokens i lt,
            at_second-stale w.stamps last (unix now) later stale (λ e. e.toks) h t.kept,
          );
          home = λ i lt. ground (arith, t.home i lt);
          past = λ i lt. ground (arith, t.past i lt);
          kept = Kept-restamp w.stamps last (unix now) later stale h t.kept;
        })
]

slot-stamp :
    (w : RateWindow) (now : ℕ)
    → ((slot w now).1 ≡ unix now % 60) × ((slot w now).0.stamps (unix now % 60) ≡ unix now)
unfolding slot
slot-stamp w now = ground arith

-- A write to the slot of the current second, seen slot by slot, adds one event to the log.
module _ (v u : RateWindow) (h : List Event) (sec a b : ℕ) (pos_sec : 0 < sec)
    (here : v.stamps (sec % 60) ≡ sec) (t : Tracks v h sec)
    (stamps : (i : ℕ) → u.stamps i ≡ v.stamps i)
    (reqs : (i : ℕ) → u.reqs i ≡ (if sec % 60 == i then v.reqs i + a else v.reqs i))
    (toks : (i : ℕ) → u.toks i ≡ (if sec % 60 == i then v.toks i + b else v.toks i)) where
  abbrev booked : Event
  booked = record { at = sec; reqs = a; toks = b }

  Kept-same : (l : List Event) → Kept v.stamps sec l → Kept u.stamps sec l
  Kept-same [] k = tt
  Kept-same (e ∷ l) k = ((k.0.0, omega arith, ground (arith, stamps (e.at % 60))), Kept-same l k.1)

  write-Tracks : Tracks u (booked ∷ h) sec
  unfolding at_second
  write-Tracks = record {
    requests = λ i lt. ground (arith, reqs i, stamps i, t.requests i lt, t.home i lt);
    tokens = λ i lt. ground (arith, toks i, stamps i, t.tokens i lt, t.home i lt);
    home = λ i lt. ground (arith, stamps i, t.home i lt);
    past = λ i lt. ground (arith, stamps i, t.past i lt);
    kept = ((pos_sec, omega arith, inl (stamps (sec % 60) ∙ here)), Kept-same h t.kept);
  }

module _ (w : RateWindow) (h : List Event) (last now : ℕ) (later : last ≤ unix now)
    (pos_sec : 0 < unix now) (t : Tracks w h last) where
  pub count_request-Tracks :
      Tracks (count_request w now) (record { at = unix now; reqs = 1; toks = 0 } ∷ h) (unix now)
  unfolding count_request
  count_request-Tracks =
      write-Tracks (slot w now).0 (count_request w now) h (unix now) 1 0 pos_sec
        (slot-stamp w now).1 (slot-Tracks w h last now later t) (λ i. refl) (λ i. ground arith)
        (λ i. ground arith)

  pub book_tokens-Tracks :
      (n : ℤ)
      → Tracks
          (book_tokens w now n)
          (record { at = unix now; reqs = 0; toks = pos_part n } ∷ h)
          (unix now)
  unfolding book_tokens
  book_tokens-Tracks n =
      write-Tracks (slot w now).0 (book_tokens w now n) h (unix now) 0 (pos_part n) pos_sec
        (slot-stamp w now).1 (slot-Tracks w h last now later t) (λ i. refl) (λ i. ground arith)
        (λ i. ground arith)

-- Time alone changes nothing.
pub Tracks-later : (w : RateWindow) (h : List Event) (a b : ℕ) → a ≤ b → Tracks w h a → Tracks w h b
Tracks-later w h a b le t = record {
  requests = t.requests;
  tokens = t.tokens;
  home = t.home;
  past = λ i lt. omega (arith, t.past i lt);
  kept = Kept-later w.stamps a b h le t.kept;
}

-- A log that is 60 seconds old is as good as empty.
abbrev pub Old : ℕ → List Event → Type 0
Old now [] = Unit {0}
Old now (e ∷ h) = ((0 < e.at) × (e.at + 60 ≤ now)) × Old now h

Old-Kept : (now : ℕ) (h : List Event) → Old now h → Kept (λ i. 0) now h
Old-Kept now [] o = tt
Old-Kept now (e ∷ h) o = ((o.0.0, omega arith, inr o.0.1), Old-Kept now h o.1)

at_second-zero : (f : Event → ℕ) (now : ℕ) (h : List Event) → Old now h → at_second f 0 h ≡ 0
unfolding at_second
at_second-zero f now [] o = refl
at_second-zero f now (e ∷ h) o = ground (arith, at_second-zero f now h o.1)

pub zero_window-Tracks : (now : ℕ) (h : List Event) → Old now h → Tracks zero_window h now
zero_window-Tracks now h o = record {
  requests = λ i lt. sym (at_second-zero (λ e. e.reqs) now h o);
  tokens = λ i lt. sym (at_second-zero (λ e. e.toks) now h o);
  home = λ i lt. inl refl;
  past = λ i lt. omega arith;
  kept = Old-Kept now h o;
}

pub Kept-Old :
    (stamps : ℕ → ℕ) (last now : ℕ) (h : List Event)
    → last + 60 ≤ now
    → Kept stamps last h
    → Old now h
Kept-Old stamps last now [] le k = tt
Kept-Old stamps last now (e ∷ h) le k = ((k.0.0, omega arith), Kept-Old stamps last now h le k.1)

pub seen-count_request : (w : RateWindow) (now : ℕ) → (count_request w now).seen ≡ w.seen
unfolding count_request
seen-count_request w now = ground arith

pub seen-book_tokens : (w : RateWindow) (now : ℕ) (n : ℤ) → (book_tokens w now n).seen ≡ w.seen
unfolding book_tokens
seen-book_tokens w now n = ground arith
