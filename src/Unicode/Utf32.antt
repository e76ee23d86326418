-- ===== src/Unicode/Utf32.antt =====
-- unicode.hpp: `code_point_to_utf32` and `utf32_to_code_point`.
use sol.Base.{ℕ, zero, suc, List, [], ◌∷◌, Option, none, some}
use sol.Unicode.Scalars.{ok, sequence_too_short, DecodedResult, EncodedResult}

-- The other three units are left uninitialised.
unfoldable pub code_point_to_utf32 : ℕ → EncodedResult
code_point_to_utf32 codepoint = record {
  error = ok;
  code_units_size = 1;
  code_units = codepoint ∷ [];
}

unfoldable pub utf32_to_code_point : List ℕ → ℕ → Option DecodedResult
utf32_to_code_point memory zero =
    some (record { error = sequence_too_short; codepoint = none; next = some 0 })
utf32_to_code_point [] (suc room) = none
utf32_to_code_point (unit ∷ memory) (suc room) =
    some (record { error = ok; codepoint = some unit; next = some 1 })
