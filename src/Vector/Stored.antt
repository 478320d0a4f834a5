-- ===== src/Vector/Stored.antt =====
-- Vectors of internal/vector/vector.go that are stored and read again.
use yzapi.Base.{
  ℕ, ◌-◌, ◌*◌, ◌/◌, ◌%◌, ◌<◌, ◌^◌, ◌≡◌, refl, ap, ap₂, ◌∙◌, List, [], ◌∷◌, arith, length,
}
use yzapi.Vector.{put_uint32, uint32, encode, decode}

-- Every number of the list is below `n`.
abbrev pub AllBelow : ℕ → List ℕ → Type 0
AllBelow n [] = Unit
AllBelow n (x ∷ xs) = (x < n) × AllBelow n xs

decode-encode_id : (v : List ℕ) → AllBelow (2 ^ 32) v → decode (encode v) ≡ v
unfolding decode encode put_uint32
decode-encode_id [] small = refl
decode-encode_id (x ∷ xs) (lt, small) =
    ap₂ (λ y ys. y ∷ ys) (omega arith) (decode-encode_id xs small)

-- four bytes that are put back
put_uint32-uint32 :
    (a b c d : ℕ) (rest : List ℕ)
    → a < 256
    → b < 256
    → c < 256
    → d < 256
    → put_uint32 (uint32 a b c d) rest ≡ a ∷ b ∷ c ∷ d ∷ rest
unfolding put_uint32
put_uint32-uint32 a b c d rest sa sb sc sd =
    let ea : uint32 a b c d % 256 ≡ a = omega arith in
    let eb : uint32 a b c d / 256 % 256 ≡ b = omega arith in
    let ec : uint32 a b c d / 65_536 % 256 ≡ c = omega arith in
    let ed : uint32 a b c d / 16_777_216 % 256 ≡ d = omega arith in cc

encode-decode_id : (n : ℕ) (b : List ℕ) → AllBelow 256 b → length b ≡ 4 * n → encode (decode b) ≡ b
unfolding encode decode
encode-decode_id n [] small e = refl
encode-decode_id n (a ∷ []) small e = absurd (omega arith)
encode-decode_id n (a ∷ b ∷ []) small e = absurd (omega arith)
encode-decode_id n (a ∷ b ∷ c ∷ []) small e = absurd (omega arith)
encode-decode_id n (a ∷ b ∷ c ∷ d ∷ rest) (sa, (sb, (sc, (sd, small)))) e =
    ap (λ bytes. put_uint32 (uint32 a b c d) bytes)
      (encode-decode_id (n - 1) rest small (omega arith))
    ∙ put_uint32-uint32 a b c d rest sa sb sc sd

-- A vector that is stored is read back as it was, and bytes that are read, four for each number,
-- are stored as they were; the numbers must fit in 32 bits, and the bytes in 8.
pub decode-encode :
    (v : List ℕ) (n : ℕ) (b : List ℕ)
    → AllBelow (2 ^ 32) v
    → AllBelow 256 b
    → length b ≡ 4 * n
    → (decode (encode v) ≡ v) × (encode (decode b) ≡ b)
decode-encode v n b words bytes whole = (decode-encode_id v words, encode-decode_id n b bytes whole)
