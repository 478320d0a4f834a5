-- ===== src/Vector/Tests.antt =====
-- Two numbers in the bytes of internal/vector/vector.go.
use yzapi.Base.{ℕ, ◌≡◌, refl, arith, List, [], ◌∷◌}
use yzapi.Vector.{encode, decode, put_uint32}
use yzapi.Vector.Stored.{decode-encode}

abbrev bytes : List ℕ
bytes = 1 ∷ 0 ∷ 0 ∷ 0 ∷ 0 ∷ 0 ∷ 128 ∷ 63 ∷ []

-- the bits of 1.0
one : encode (1 ∷ 1_065_353_216 ∷ []) ≡ bytes
unfolding encode put_uint32
one = refl

decode-encode_example :
    (decode (encode (1 ∷ 1_065_353_216 ∷ [])) ≡ 1 ∷ 1_065_353_216 ∷ [])
    × (encode (decode bytes) ≡ bytes)
decode-encode_example =
    decode-encode (1 ∷ 1_065_353_216 ∷ []) 2 bytes (ground arith) (ground arith) refl
