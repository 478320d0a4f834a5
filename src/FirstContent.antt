-- ===== src/FirstContent.antt =====
-- `firstContentWriter` of internal/gateway/firstcontent.go: when a stream has its first content. Whether
-- one event has content, `eventHasContent`, is a parameter.
pub mod Cut
pub mod Loop
pub mod Chunks
mod Tests
use yzapi.Base.{
  ℕ, zero, suc, ◌+◌, Bool, true, false, ◌&&◌, ◌||◌, Option, none, some, [], ◌∷◌, ◌++◌, ◌==◌, ltb,
  length, take, if◌then◌else◌,
}
use yzapi.Health.Truncate.{Bytes}

-- `firstContentWriter`; `calls` counts the calls of `onFirst`
pub record Writer : Type 0 where
  pub found : Bool
  pub buf : Bytes
  pub calls : ℕ

abbrev pub new_writer : Writer
new_writer = record { found = false; buf = []; calls = 0 }

-- "\n\n" and "\r\n\r\n"
abbrev pub lf : Bytes
lf = 10 ∷ 10 ∷ []

abbrev pub crlf : Bytes
crlf = 13 ∷ 10 ∷ 13 ∷ 10 ∷ []

unfoldable pub has_prefix : Bytes → Bytes → Bool
has_prefix [] s = true
has_prefix (c ∷ p) [] = false
has_prefix (c ∷ p) (d ∷ s) = c == d && has_prefix p s

abbrev pub next_place : Option ℕ → Option ℕ
next_place none = none
next_place (some i) = some (suc i)

-- `bytes.Index`
unfoldable pub index : Bytes → Bytes → Option ℕ
unfolding has_prefix
index p [] = if has_prefix p [] then some 0 else none
index p (d ∷ s) = let rest = index p s in if has_prefix p (d ∷ s) then some 0 else next_place rest

-- `i, sep`, of the two searches
abbrev pub choose : Option ℕ → Option ℕ → Option (ℕ × ℕ)
choose none none = none
choose (some i) none = some (i, 2)
choose none (some j) = some (j, 4)
choose (some i) (some j) = if ltb j i then some (j, 4) else some (i, 2)

unfoldable pub separator : Bytes → Option (ℕ × ℕ)
unfolding index
separator buf = choose (index lf buf) (index crlf buf)

abbrev pub drop : ℕ → Bytes → Bytes
drop zero xs = xs
drop (suc n) [] = []
drop (suc n) (x ∷ xs) = drop n xs

module _ (has_content : Bytes → Bool) where
  -- the loop of `Write`, on fuel
  unfoldable pub drain : ℕ → Writer → Writer
  drain zero f = f
  drain (suc fuel) f = elim (separator f.buf) [
    | none ↦ f
    | some (i, sep) ↦
        let rest = drain fuel (record f { buf = drop (i + sep) f.buf }) in
        if f.found
        then f
        else if has_content (take i f.buf)
        then record { found = true; buf = []; calls = suc f.calls }
        else rest
  ]

  -- a buffer over 1 MiB is dropped
  abbrev pub bounded : Writer → Writer
  bounded f = if ltb 1_048_576 (length f.buf) then record f { buf = [] } else f

  -- `Write`, where the underlying writer took `n` bytes of `p`, with an error or not
  unfoldable pub write : ℕ → Bool → Bytes → Writer → Writer
  unfolding drain
  write n failed p f =
      if f.found || n == 0 || failed
      then f
      else let buf = f.buf ++ take n p in bounded (drain (length buf) (record f { buf = buf }))
