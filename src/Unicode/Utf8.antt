-- ===== src/Unicode/Utf8.antt =====
-- unicode.hpp: `code_point_to_utf8` and `utf8_to_code_point`.
mod Bytes
mod Reads
pub mod RoundTrip
pub mod Decoding
pub mod Within
use sol.Base.{
  ℕ, zero, suc, ◌-◌, ◌/◌, ◌^◌, Bool, true, false, ◌||◌, List, [], ◌∷◌, Option, none, some, ltb, leb,
  ◌==◌, bit_and, bit_or, length, if◌then◌else◌,
}
use sol.Unicode.Scalars.{
  ErrorCode, ok, invalid_code_point, invalid_code_unit, sequence_too_short, overlong_sequence,
  DecodedResult, EncodedResult, last_code_point, last_1byte_value, last_2byte_value,
  last_3byte_value, is_surrogate, is_invalid, is_continuation, is_overlong, sequence_length,
  decode_two, decode_three, decode_four,
}

abbrev encoded : ℕ → List ℕ → EncodedResult
encoded size us = record { error = ok; code_units_size = size; code_units = us }

-- The units are the bytes of the `char`s.
unfoldable pub code_point_to_utf8 : ℕ → EncodedResult
code_point_to_utf8 codepoint =
    if leb codepoint last_1byte_value
    then encoded 1 (codepoint ∷ 0 ∷ 0 ∷ 0 ∷ [])
    else if leb codepoint last_2byte_value
    then encoded 2 (
        bit_or 0xC0 (bit_and codepoint 0x7C0 / 2 ^ 6)
        ∷ bit_or 0x80 (bit_and codepoint 0x3F)
        ∷ 0
        ∷ 0
        ∷ [])
    else if leb codepoint last_3byte_value
    then encoded 3 (
        bit_or 0xE0 (bit_and codepoint 0xF000 / 2 ^ 12)
        ∷ bit_or 0x80 (bit_and codepoint 0xFC0 / 2 ^ 6)
        ∷ bit_or 0x80 (bit_and codepoint 0x3F)
        ∷ 0
        ∷ [])
    else encoded 4 (
        bit_or 0xF0 (bit_and codepoint 0x1C0000 / 2 ^ 18)
        ∷ bit_or 0x80 (bit_and codepoint 0x3F000 / 2 ^ 12)
        ∷ bit_or 0x80 (bit_and codepoint 0xFC0 / 2 ^ 6)
        ∷ bit_or 0x80 (bit_and codepoint 0x3F)
        ∷ [])

-- The loop over the units after the first: all of them, the offset of the first that is no
-- continuation, or a read behind the end of the memory.
pub data Continuations : Type 0 where
  complete : List ℕ → Continuations
  broken : ℕ → Continuations
  unreadable : Continuations

abbrev prepend : ℕ → Continuations → Continuations
prepend b (complete bs) = complete (b ∷ bs)
prepend b (broken at) = broken at
prepend b unreadable = unreadable

-- `read_continuations n i memory`: the rounds left, the offset of the next unit, and the memory from
-- there on. No round compares the iterator with `last`.
unfoldable pub read_continuations : ℕ → ℕ → List ℕ → Continuations
read_continuations zero i memory = complete []
read_continuations (suc n) i [] = unreadable
read_continuations (suc n) i (b ∷ memory) =
    if is_continuation b then prepend b (read_continuations n (suc i) memory) else broken i

-- The switch on the length, which is 2, 3 or 4; with no unit after the first it is not reached.
unfoldable pub decode_sequence : ℕ → List ℕ → ℕ
decode_sequence b0 [] = b0
decode_sequence b0 (b1 ∷ []) = decode_two b0 b1
decode_sequence b0 (b1 ∷ b2 ∷ []) = decode_three b0 b1 b2
decode_sequence b0 (b1 ∷ b2 ∷ b3 ∷ _) = decode_four b0 b1 b2 b3

-- The checks after the loop. The two errors leave `next` uninitialised.
unfoldable pub check_decoded : ℕ → ℕ → DecodedResult
check_decoded decoded len =
    if is_overlong decoded len
    then record { error = overlong_sequence; codepoint = none; next = none }
    else if is_surrogate decoded || ltb last_code_point decoded
    then record { error = invalid_code_point; codepoint = none; next = none }
    else record { error = ok; codepoint = some decoded; next = some len }

unfoldable pub after_loop : ℕ → Continuations → Option DecodedResult
after_loop b0 (complete bs) = some (check_decoded (decode_sequence b0 bs) (suc (length bs)))
after_loop b0 (broken i) =
    some (record { error = invalid_code_unit; codepoint = none; next = some i })
after_loop b0 unreadable = none

unfoldable pub decode_unit : ℕ → List ℕ → Option DecodedResult
decode_unit b0 memory =
    if sequence_length b0 == 1
    then some (record { error = ok; codepoint = some b0; next = some 1 })
    else if is_invalid b0 || is_continuation b0
    then some (record { error = invalid_code_unit; codepoint = none; next = some 0 })
    else after_loop b0 (read_continuations (sequence_length b0 - 1) 1 memory)

-- `memory` is what can be read from `it` on, and `room` is `last - it`. The result is `none` when a
-- unit is read that the memory does not have.
unfoldable pub utf8_to_code_point : List ℕ → ℕ → Option DecodedResult
utf8_to_code_point memory zero =
    some (record { error = sequence_too_short; codepoint = none; next = some 0 })
utf8_to_code_point [] (suc room) = none
utf8_to_code_point (b0 ∷ memory) (suc room) = decode_unit b0 memory
