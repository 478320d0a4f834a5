-- ===== src/FirstContent/Tests.antt =====
-- A stream of two events, cut in the middle of a separator, in internal/gateway/firstcontent.go.
use yzapi.Base.{◌≡◌, ◌⊎◌, refl, none, arith, Bool, true, false, List, [], ◌∷◌, ◌==◌, length}
use yzapi.FirstContent.{new_writer, write, drain, separator, index, has_prefix}
use yzapi.FirstContent.Chunks.{joined, writes, writes-joined}
use yzapi.FirstContent.Loop.{Once, searching, drain_ends}
use yzapi.Health.Truncate.{Bytes}

-- An event has content when it has two bytes.
abbrev two_bytes : Bytes → Bool
two_bytes e = length e == 2

abbrev pieces : List Bytes
pieces = (58 ∷ 13 ∷ 10 ∷ []) ∷ (13 ∷ []) ∷ (10 ∷ 97 ∷ 98 ∷ 10 ∷ []) ∷ (10 ∷ 99 ∷ []) ∷ []

second : writes two_bytes pieces new_writer ≡ record { found = true; buf = []; calls = 1 }
unfolding writes write drain separator index has_prefix
second = refl

writes-joined_example :
    (writes two_bytes pieces new_writer ≡ write two_bytes 10 false (joined pieces) new_writer)
    × Once (writes two_bytes pieces new_writer)
unfolding joined
writes-joined_example = writes-joined two_bytes pieces (ground arith)

drain_ends_example :
    ((drain two_bytes 4 (searching 0 (58 ∷ 10 ∷ 10 ∷ 97 ∷ []))).found ≡ true)
    ⊎ (separator (drain two_bytes 4 (searching 0 (58 ∷ 10 ∷ 10 ∷ 97 ∷ []))).buf ≡ none)
drain_ends_example = drain_ends two_bytes 4 0 (58 ∷ 10 ∷ 10 ∷ 97 ∷ []) (ground arith)
