-- ===== src/FirstContent/Chunks.antt =====
-- A stream that is written in pieces, through `Write` of internal/gateway/firstcontent.go.
use yzapi.FirstContent.Loop.{
  more, searching, drain-found, drain_enough, drain-more, length-drain, Once, drain-Once,
}
use yzapi.Base.{
  append-nil, append_assoc, ℕ, suc, ◌≤◌, ◌≡◌, refl, sym, ap, ◌∙◌, subst, inl, inr, Bool, true,
  false, Bool-cases, List, [], ◌∷◌, ◌++◌, ◌==◌, ltb, length, length-append, take, arith,
}
use yzapi.FirstContent.{Writer, new_writer, drain, bounded, write}
use yzapi.Health.Truncate.{Bytes}

-- the bytes of the pieces
unfoldable pub joined : List Bytes → Bytes
joined [] = []
joined (p ∷ ps) = p ++ joined ps

take_all : (p : Bytes) → take (length p) p ≡ p
take_all [] = refl
take_all (x ∷ p) = ap (λ r. x ∷ r) (take_all p)

module _ (has_content : Bytes → Bool) where
  -- writes that succeed in full
  unfoldable pub writes : List Bytes → Writer → Writer
  unfolding write
  writes [] f = f
  writes (p ∷ ps) f = writes ps (write has_content (length p) false p f)

  -- What the writes of some pieces come to: the loop over all that is written so far
  seen : Bytes → Writer
  seen s = drain has_content (length s) (searching 0 s)

  bounded_small : (f : Writer) → length f.buf ≤ 1_048_576 → bounded has_content f ≡ f
  bounded_small f small =
      let fits : ltb 1_048_576 (length f.buf) ≡ false = ground arith in rw fits refl

  write_found :
      (p : Bytes) (g : Writer) → g.found ≡ true → write has_content (length p) false p g ≡ g
  unfolding write
  write_found p g e = rw e refl

  write_empty : (g : Writer) → write has_content 0 false [] g ≡ g
  unfolding write
  write_empty g = elim (Bool-cases g.found) [ inl e ↦ rw e refl | inr e ↦ rw e refl ]

  write_more :
      (n c : ℕ) (buf : Bytes) (x : ℕ) (p : Bytes)
      → length (buf ++ x ∷ p) ≤ n
      → n ≤ 1_048_576
      → write has_content (length (x ∷ p)) false (x ∷ p) (searching c buf)
        ≡ drain has_content n (searching c (buf ++ x ∷ p))
  unfolding write
  write_more n c buf x p le small =
      let len = length (buf ++ x ∷ p) in
      let kept = length-drain has_content len c (buf ++ x ∷ p) in
      let nonzero : (suc (length p) == 0) ≡ false = ground arith in
      rw (nonzero, take_all p)
        (bounded_small (drain has_content len (searching c (buf ++ x ∷ p))) (omega arith)
          ∙ drain_enough has_content len n c (buf ++ x ∷ p) (omega arith) le)

  write-seen :
      (s p : Bytes)
      → length (s ++ p) ≤ 1_048_576
      → write has_content (length p) false p (seen s) ≡ seen (s ++ p)
  unfolding seen
  write-seen s [] small = write_empty (seen s) ∙ ap seen (sym (append-nil s))
  write-seen s (x ∷ p) small =
      let n = length (s ++ x ∷ p) in
      let after : seen (s ++ x ∷ p) ≡ drain has_content n (more (seen s) (x ∷ p)) =
        drain-more has_content (length s) 0 s (x ∷ p) n n (omega arith) (omega arith)
          (omega arith) in
      elim (Bool-cases (seen s).found) [
        | inl y ↦
            let whole : more (seen s) (x ∷ p) ≡ seen s = rw y refl in
            write_found (x ∷ p) (seen s) y
            ∙ sym (after ∙ ap (drain has_content n) whole ∙ drain-found has_content n (seen s) y)
        | inr y ↦
            let open_still : seen s ≡ searching (seen s).calls (seen s).buf =
              ap (λ b. record { found = b; buf = (seen s).buf; calls = (seen s).calls }) y in
            let shorter = length-drain has_content (length s) 0 s in
            let sizes = length-append (seen s).buf (x ∷ p) in
            let sizes' = length-append s (x ∷ p) in
            ap (write has_content (length (x ∷ p)) false (x ∷ p)) open_still
            ∙ write_more n (seen s).calls (seen s).buf x p (omega arith) small
            ∙ sym (after ∙ ap (λ g. drain has_content n (more g (x ∷ p))) open_still)
      ]

  writes-seen :
      (ps : List Bytes) (s : Bytes)
      → length (s ++ joined ps) ≤ 1_048_576
      → writes ps (seen s) ≡ seen (s ++ joined ps)
  unfolding writes joined
  writes-seen [] s small = ap seen (sym (append-nil s))
  writes-seen (p ∷ ps) s small =
      let sizes = length-append (s ++ p) (joined ps) in
      let same = append_assoc s p (joined ps) in
      let fits : length ((s ++ p) ++ joined ps) ≤ 1_048_576 = rw same small in
      ap (writes ps) (write-seen s p (omega arith)) ∙ writes-seen ps (s ++ p) fits ∙ ap seen same

  -- However a stream of up to 1 MiB is cut into writes that succeed, the writer ends in the same state
  -- as after one write of the whole: content is found in the same event, `onFirst` is called once if it
  -- is found and never otherwise.
  pub writes-joined :
      (ps : List Bytes)
      → length (joined ps) ≤ 1_048_576
      → (writes ps new_writer ≡ write has_content (length (joined ps)) false (joined ps) new_writer)
        × Once (writes ps new_writer)
  unfolding seen drain
  writes-joined ps small =
      let all = writes-seen ps [] small in
      (
        all ∙ sym (write-seen [] (joined ps) small),
        subst Once (sym all) (drain-Once has_content (length (joined ps)) (joined ps)),
      )
