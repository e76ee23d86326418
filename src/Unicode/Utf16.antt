-- ===== src/Unicode/Utf16.antt =====
-- unicode.hpp: `code_point_to_utf16` and `utf16_to_code_point`.
pub mod Pairs
use sol.Base.{
  ℕ, zero, suc, ◌+◌, ◌-◌, ◌/◌, ◌%◌, ◌^◌, List, [], ◌∷◌, Option, none, some, leb, not, bit_and,
  if◌then◌else◌,
}
use sol.Unicode.Scalars.{
  ok, sequence_too_short, invalid_leading_surrogate, invalid_trailing_surrogate, DecodedResult,
  EncodedResult, last_bmp_value, normalizing_value, first_lead_surrogate, first_trail_surrogate,
  is_surrogate, is_lead_surrogate, is_trail_surrogate, combine_surrogates,
}

-- The casts to `char16_t` keep the low 16 bits. `normal` is computed of a code point that is not
-- below the value subtracted.
unfoldable pub code_point_to_utf16 : ℕ → EncodedResult
code_point_to_utf16 codepoint =
    if leb codepoint last_bmp_value
    then record {
      error = ok;
      code_units_size = 1;
      code_units = codepoint % 2 ^ 16 ∷ 0 ∷ 0 ∷ 0 ∷ [];
    }
    else let normal = codepoint - normalizing_value in
      let lead = first_lead_surrogate + bit_and normal 0xFFC00 / 2 ^ 10 in
      let trail = first_trail_surrogate + bit_and normal 0x3FF in
      record {
        error = ok;
        code_units_size = 2;
        code_units = lead % 2 ^ 16 ∷ trail % 2 ^ 16 ∷ 0 ∷ 0 ∷ [];
      }

-- The unit after a lead surrogate; the iterator is not compared with `last` again.
unfoldable pub after_lead : ℕ → List ℕ → Option DecodedResult
after_lead lead [] = none
after_lead lead (trail ∷ memory) =
    if not (is_trail_surrogate trail)
    then some (record { error = invalid_trailing_surrogate; codepoint = none; next = some 1 })
    else some
        (record { error = ok; codepoint = some (combine_surrogates lead trail); next = some 2 })

-- As for UTF-8, `memory` starts at `it`, `room` is `last - it`, and `none` is a read behind the end
-- of the memory.
unfoldable pub utf16_to_code_point : List ℕ → ℕ → Option DecodedResult
utf16_to_code_point memory zero =
    some (record { error = sequence_too_short; codepoint = none; next = some 0 })
utf16_to_code_point [] (suc room) = none
utf16_to_code_point (lead ∷ memory) (suc room) =
    if not (is_surrogate lead)
    then some (record { error = ok; codepoint = some lead; next = some 1 })
    else if not (is_lead_surrogate lead)
    then some (record { error = invalid_leading_surrogate; codepoint = none; next = some 0 })
    else after_lead lead memory
