-- ===== src/RateLimit/Refine.antt =====
-- The ring buffers of internal/gateway/ratelimit.go answer as the logs do.
use mathlib.Core.Path.{subst}
use text.Mathlib.Text.{◌==◌}
use text.Mathlib.TextEquality.{eq_iff}
use yzapi.Base.{
  ℕ, ◌+◌, ◌*◌, ◌≤◌, ◌<◌, ◌≡◌, refl, sym, ◌∙◌, ap, ap₂, String, not, ◌&&◌, inl, inr, Option, none,
  some, List, [], ◌∷◌, ltb, arith, Bool-cases, if◌then◌else◌,
}
use yzapi.Base.Int.{ℤ, pos, pos_part, positive, leb_ℤ}
use yzapi.Base.Texts.{put}
use yzapi.Errors.{GatewayError}
use yzapi.RateLimit.Window.{RateWindow, unix, sums, count_request, book_tokens, second}
use yzapi.RateLimit.Window.Spec.{Event, Tracks, sums-eq-spent}
use yzapi.RateLimit.Window.Steps.{
  Old, count_request-Tracks, book_tokens-Tracks, seen-count_request, seen-book_tokens, Tracks-later,
  zero_window-Tracks, Kept-Old,
}
use yzapi.RateLimit.Log.{
  Logs, no_logs, log_admit, log_add, log_step, log_run, Ordered, IsPatient, requests_in, tokens_in,
}
use yzapi.RateLimit.{
  RateLimiter, found, window, store, admit, add_tokens, prune, Call, admits, adds, prunes, step,
  run, new_limiter,
}

-- A window holds the log of its subject; a missing window stands for a log that is 60 seconds old.
abbrev Holds : ℕ → Option RateWindow → List Event → Type 0
Holds now none h = Old (unix now) h
Holds now (some w) h = (w.seen ≤ now) × Tracks w h (unix w.seen)

abbrev Refines : RateLimiter → Logs → ℕ → Type 0
Refines r logs now = (id : String) → Holds now (r.m id) (logs id)

Old-later : (a b : ℕ) (h : List Event) → a ≤ b → Old a h → Old b h
Old-later a b [] le o = tt
Old-later a b (e ∷ h) le o = ((o.0.0, omega arith), Old-later a b h le o.1)

Holds-later : (a b : ℕ) (o : Option RateWindow) (h : List Event) → a ≤ b → Holds a o h → Holds b o h
Holds-later a b none h le k = Old-later (unix a) (unix b) h (omega arith) k
Holds-later a b (some w) h le k = (omega arith, k.1)

Tracks-seen :
    (w : RateWindow) (h : List Event) (last n : ℕ)
    → Tracks w h last
    → Tracks (record w { seen = n }) h last
Tracks-seen w h last n t = record {
  requests = t.requests;
  tokens = t.tokens;
  home = t.home;
  past = t.past;
  kept = t.kept;
}

found-Tracks :
    (now : ℕ) (o : Option RateWindow) (h : List Event)
    → Holds now o h
    → Tracks (record (found o) { seen = now }) h (unix now)
found-Tracks now none h k = Tracks-seen _ h (unix now) now (zero_window-Tracks (unix now) h k)
found-Tracks now (some w) h k =
    Tracks-seen w h (unix now) now (Tracks-later w h (unix w.seen) (unix now) (omega arith) k.1)

put-Holds :
    (r : RateLimiter) (logs : Logs) (id : String) (w : RateWindow) (h : List Event) (now : ℕ)
    → Refines r logs now
    → Holds now (some w) h
    → Refines (store r id w) (put logs id h) now
put-Holds r logs id w h now k new j = elim (Bool-cases (id == j)) [
  | inl same ↦ rw same new
  | inr other ↦ rw other (k j)
]

store-Holds :
    (r : RateLimiter) (logs : Logs) (id : String) (w : RateWindow) (now : ℕ)
    → Refines r logs now
    → Holds now (some w) (logs id)
    → Refines (store r id w) logs now
store-Holds r logs id w now k new j = elim (Bool-cases (id == j)) [
  | inl same ↦ rw same (rw (ap logs ((eq_iff id j).0 same)) at new)
  | inr other ↦ rw other (k j)
]

Refines-later :
    (r : RateLimiter) (logs : Logs) (a b : ℕ) → a ≤ b → Refines r logs a → Refines r logs b
Refines-later r logs a b le k j = Holds-later a b (r.m j) (logs j) le (k j)

seen-Holds :
    (w : RateWindow) (h : List Event) (now : ℕ)
    → w.seen ≡ now
    → Tracks w h (unix now)
    → Holds now (some w) h
seen-Holds w h now e t = (omega arith, subst (λ n. Tracks w h (unix n)) (sym e) t)

module _ (r : RateLimiter) (logs : Logs) (last now : ℕ) (later : last ≤ now) (epoch : 0 < unix now)
    (k : Refines r logs last) where
  fresh : (id : String) → Tracks (window r id now) (logs id) (unix now)
  unfolding window
  fresh id =
      found-Tracks now (r.m id) (logs id) (Holds-later last now (r.m id) (logs id) later (k id))

  fresh-sums :
      (id : String)
      → sums (window r id now) now
        ≡ (requests_in (unix now) (logs id), tokens_in (unix now) (logs id))
  fresh-sums id = sums-eq-spent (window r id now) (logs id) (unix now) now (omega arith) (fresh id)

  abbrev Agrees : RateLimiter × Option GatewayError → Logs × Option GatewayError → Type 0
  Agrees a b = (a.1 ≡ b.1) × Refines a.0 b.0 now

  kept : (id : String) → Holds now (some (window r id now)) (logs id)
  unfolding window
  kept id = (omega arith, fresh id)

  seen-window : (id : String) → (window r id now).seen ≡ now
  unfolding window
  seen-window id = refl

  counted :
      (id : String)
      → Holds now
          (some (count_request (window r id now) now))
          (record { at = unix now; reqs = 1; toks = 0 } ∷ logs id)
  counted id =
      seen-Holds (count_request (window r id now) now) _ now
        (seen-count_request (window r id now) now ∙ seen-window id)
        (count_request-Tracks (window r id now) (logs id) (unix now) now (omega arith) epoch
          (fresh id))

  booked :
      (id : String) (n : ℤ)
      → Holds now
          (some (book_tokens (window r id now) now n))
          (record { at = unix now; reqs = 0; toks = pos_part n } ∷ logs id)
  booked id n =
      seen-Holds (book_tokens (window r id now) now n) _ now
        (seen-book_tokens (window r id now) now n ∙ seen-window id)
        (book_tokens-Tracks (window r id now) (logs id) (unix now) now (omega arith) epoch
          (fresh id) n)

  stay : Refines r logs now
  stay = Refines-later r logs last now later k

  admit-Agrees :
      (id : String) (rpm tpm : ℤ) → Agrees (admit r id rpm tpm now) (log_admit logs id rpm tpm now)
  unfolding admit log_admit
  admit-Agrees id rpm tpm = elim (Bool-cases (not (positive rpm) && not (positive tpm))) [
    | inl free ↦ rw free (refl, stay)
    | inr limited ↦
        rw (limited, fresh-sums id)
          (elim (Bool-cases (positive rpm && leb_ℤ rpm (pos (requests_in (unix now) (logs id))))) [
            | inl full ↦ rw full (refl, store-Holds r logs id (window r id now) now stay (kept id))
            | inr room ↦
                rw room
                  (elim (Bool-cases
                    (positive tpm && leb_ℤ tpm (pos (tokens_in (unix now) (logs id))))) [
                      | inl spent ↦
                          rw spent
                            (refl, store-Holds r logs id (window r id now) now stay (kept id))
                      | inr left ↦ rw left (
                        refl,
                        put-Holds r logs id (count_request (window r id now) now) _ now stay
                            (counted id),
                      )
                    ])
          ])
  ]

  add_tokens-Refines :
      (id : String) (n : ℤ) → Refines (add_tokens r id n now) (log_add logs id n now) now
  unfolding add_tokens log_add
  add_tokens-Refines id n = elim (Bool-cases (not (positive n))) [
    | inl nothing ↦ rw nothing stay
    | inr some_tokens ↦
        rw some_tokens
          (put-Holds r logs id (book_tokens (window r id now) now n) _ now stay (booked id n))
  ]

  prune-Holds :
      (max_idle : ℕ) (o : Option RateWindow) (h : List Event)
      → 60 * second ≤ max_idle
      → Holds last o h
      → Holds now
          (elim o [ none ↦ none | some w ↦ if ltb (w.seen + max_idle) now then none else some w ])
          h
  prune-Holds max_idle none h le hold = Holds-later last now none h later hold
  prune-Holds max_idle (some w) h le hold = elim (Bool-cases (ltb (w.seen + max_idle) now)) [
    | inl idle ↦ rw idle (Kept-Old w.stamps (unix w.seen) (unix now) h (ground arith) hold.1.kept)
    | inr used ↦ rw used (Holds-later last now (some w) h later hold)
  ]

  prune-Refines : (max_idle : ℕ) → 60 * second ≤ max_idle → Refines (prune r max_idle now) logs now
  unfolding prune
  prune-Refines max_idle le id = prune-Holds max_idle (r.m id) (logs id) le (k id)

  step-Agrees : (c : Call) → IsPatient c → Agrees (step r (now, c)) (log_step logs (now, c))
  unfolding step log_step
  step-Agrees (admits id rpm tpm) p = admit-Agrees id rpm tpm
  step-Agrees (adds id n) p = (refl, add_tokens-Refines id n)
  step-Agrees (prunes max_idle) p = (refl, prune-Refines max_idle p)

run-Refines :
    (r : RateLimiter) (logs : Logs) (t : ℕ) (cs : List (ℕ × Call))
    → Ordered t cs
    → Refines r logs t
    → run r cs ≡ log_run logs cs
unfolding run log_run
run-Refines r logs t [] o k = refl
run-Refines r logs t ((now, c) ∷ cs) o k =
    let agrees = step-Agrees r logs t now o.0.0 o.0.1 k c o.0.2 in
    ap₂ ◌∷◌ agrees.0
      (run-Refines (step r (now, c)).0 (log_step logs (now, c)).0 now cs o.1 agrees.1)

-- From the start, whatever calls arrive and whatever subjects they name, the limiter tells each
-- caller exactly what a limiter with complete logs would tell it, provided that the clock does not
-- go back and that pruning spares subjects used in the last 60 seconds.
pub run-eq-log_run : (cs : List (ℕ × Call)) → Ordered 0 cs → run new_limiter cs ≡ log_run no_logs cs
run-eq-log_run cs o = run-Refines new_limiter no_logs 0 cs o (λ id. tt)
