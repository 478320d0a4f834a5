-- ===== src/Vector.antt =====
-- `Encode` and `Decode` of internal/vector/vector.go: vectors as they are stored. A float32 stands for
-- its bits, a number below 2 ^ 32, as `math.Float32bits` and `math.Float32frombits` keep them.
pub mod Stored
mod Tests
use yzapi.Base.{ℕ, ◌+◌, ◌*◌, ◌/◌, ◌%◌, List, [], ◌∷◌}

-- `binary.LittleEndian.PutUint32`, in front of what follows
unfoldable pub put_uint32 : ℕ → List ℕ → List ℕ
put_uint32 x rest = x % 256 ∷ x / 256 % 256 ∷ x / 65_536 % 256 ∷ x / 16_777_216 % 256 ∷ rest

-- `binary.LittleEndian.Uint32`
abbrev pub uint32 : ℕ → ℕ → ℕ → ℕ → ℕ
uint32 a b c d = a + 256 * b + 65_536 * c + 16_777_216 * d

-- `Encode`
unfoldable pub encode : List ℕ → List ℕ
unfolding put_uint32
encode [] = []
encode (x ∷ xs) = put_uint32 x (encode xs)

-- `Decode`; up to three bytes at the end are left over
unfoldable pub decode : List ℕ → List ℕ
decode (a ∷ b ∷ c ∷ d ∷ rest) = uint32 a b c d ∷ decode rest
decode rest = []
