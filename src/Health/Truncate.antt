-- ===== src/Health/Truncate.antt =====
-- `truncate` of internal/gateway/health.go, over the bytes of a text.
use yzapi.Base.{
  ℕ, zero, suc, ◌-◌, ◌≤◌, ◌<◌, ◌≡◌, refl, ◌⊎◌, inl, inr, Bool, true, false, not, ◌&&◌, List, [],
  ◌∷◌, ◌++◌, ltb, leb, arith, length, length-append, Bool-cases, if◌then◌else◌, take, get_or,
  length-take,
}

abbrev pub Bytes : Type 0
Bytes = List ℕ

-- `utf8.RuneStart`: not a continuation byte, 10xxxxxx
abbrev pub rune_start : ℕ → Bool
rune_start b = not (leb 128 b && ltb b 192)

-- the bytes of "…"
abbrev pub ellipsis : Bytes
ellipsis = 0xe2 ∷ 0x80 ∷ 0xa6 ∷ []

-- for cut > 0 && !utf8.RuneStart(s[cut]) { cut-- }
unfoldable pub back_up : Bytes → ℕ → ℕ
back_up s zero = zero
back_up s (suc cut) = elim (rune_start (get_or s (suc cut) 0)) [
  | true ↦ suc cut
  | false ↦ back_up s cut
]

-- `n - len(ellipsis)`, and 0 where that is negative
unfoldable pub truncate : Bytes → ℕ → Bytes
unfolding back_up
truncate s n = if leb (length s) n then s else take (back_up s (n - 3)) s ++ ellipsis

back_up-le : (s : Bytes) (cut : ℕ) → back_up s cut ≤ cut
unfolding back_up
back_up-le s zero = omega arith
back_up-le s (suc cut) = ground (arith, back_up-le s cut)

back_up-stops :
    (s : Bytes) (cut : ℕ) → (back_up s cut ≡ 0) ⊎ (rune_start (get_or s (back_up s cut) 0) ≡ true)
unfolding back_up
back_up-stops s zero = inl refl
back_up-stops s (suc cut) = elim (Bool-cases (rune_start (get_or s (suc cut) 0))) [
  | inl start ↦ rw (start, back_up) (inr start)
  | inr middle ↦ rw (middle, back_up) (back_up-stops s cut)
]

-- A text that fits is returned as it is. A longer one becomes a part of it and an ellipsis: at most
-- `n` bytes if `n` is at least 3, and the cut never falls inside a character, since the byte that
-- follows the part starts one or the part is empty.
pub truncate_lem :
    (s : Bytes) (n : ℕ)
    → 3 ≤ n
    → (length (truncate s n) ≤ n)
      × (length s ≤ n → truncate s n ≡ s)
      × (n < length s
          → (cut : ℕ) × (truncate s n ≡ take cut s ++ ellipsis)
            × ((cut ≡ 0) ⊎ (rune_start (get_or s cut 0) ≡ true)))
unfolding truncate
truncate_lem s n h = (
  ground (
    arith,
    length-append (take (back_up s (n - 3)) s) ellipsis,
    length-take (back_up s (n - 3)) s,
    back_up-le s (n - 3),
  ),
  λ le. ground arith,
  λ lt. (back_up s (n - 3), ground arith, back_up-stops s (n - 3)),
)
