-- ===== src/Unicode/Examples.antt =====
-- Runs of the Unicode functions, and the theorems at concrete inputs.
use sol.Base.{ℕ, ◌≡◌, refl, arith, List, [], ◌∷◌, ◌++◌, some, none, All, length}
use sol.Unicode.Scalars.{
  overlong_sequence, IsScalar, units, is_surrogate, is_lead_surrogate, is_trail_surrogate,
  is_invalid, is_continuation, is_overlong, sequence_length, decode_three, combine_surrogates,
}
use sol.Unicode.Utf8.{
  code_point_to_utf8, utf8_to_code_point, decode_unit, read_continuations, decode_sequence,
  check_decoded, after_loop,
}
use sol.Unicode.Utf8.RoundTrip.{decoded_as, utf8-round_trip}
use sol.Unicode.Utf8.Decoding.{Accepted, utf8_sound}
use sol.Unicode.Utf16.{code_point_to_utf16, utf16_to_code_point, after_lead}
use sol.Unicode.Utf16.Pairs.{Accepted16, utf16-round_trip, utf16_sound}
use sol.Unicode.Convert.{char16, char32, get_into}
use sol.Unicode.Convert.Transcoding.{Reads, encode_all, get_into-scalars}
use sol.Unicode.Convert.Valid.{utf8_text, get_into-utf8_text}

-- The euro sign, and a face.
abbrev euro : List ℕ
euro = 0xE2 ∷ 0x82 ∷ 0xAC ∷ []

abbrev face : ℕ
face = 0x1F600

euro-IsScalar : IsScalar 0x20AC
unfolding is_surrogate
euro-IsScalar = record { in_range = omega arith; no_surrogate = refl }

face-IsScalar : IsScalar face
unfolding is_surrogate
face-IsScalar = record { in_range = omega arith; no_surrogate = refl }

euro-units : units (code_point_to_utf8 0x20AC) ≡ euro
unfolding code_point_to_utf8
euro-units = refl

face-units : units (code_point_to_utf16 face) ≡ 0xD83D ∷ 0xDE00 ∷ []
unfolding code_point_to_utf16
face-units = refl

decode_euro : utf8_to_code_point euro 3 ≡ some (decoded_as 0x20AC 3)
unfolding utf8_to_code_point decode_unit sequence_length is_invalid is_continuation
    read_continuations after_loop decode_sequence decode_three check_decoded is_overlong
    is_surrogate
decode_euro = refl

decode_face : utf16_to_code_point (0xD83D ∷ 0xDE00 ∷ []) 2 ≡ some (decoded_as face 2)
unfolding utf16_to_code_point is_surrogate is_lead_surrogate is_trail_surrogate after_lead
    combine_surrogates
decode_face = refl

-- The form of two bytes of 0x7F is refused, and leaves the iterator unset.
decode_overlong :
    utf8_to_code_point (0xE0 ∷ 0x81 ∷ 0xBF ∷ []) 3
    ≡ some (record { error = overlong_sequence; codepoint = none; next = none })
unfolding utf8_to_code_point decode_unit sequence_length is_invalid is_continuation
    read_continuations after_loop decode_sequence decode_three check_decoded is_overlong
    is_surrogate
decode_overlong = refl

utf8-round_trip_example :
    utf8_to_code_point (units (code_point_to_utf8 0x20AC) ++ 0x41 ∷ []) 4
    ≡ some (decoded_as 0x20AC (length (units (code_point_to_utf8 0x20AC))))
utf8-round_trip_example = utf8-round_trip 0x20AC (0x41 ∷ []) 3 euro-IsScalar

utf8_sound_example : Accepted euro (decoded_as 0x20AC 3)
utf8_sound_example = utf8_sound euro 3 (decoded_as 0x20AC 3) (omega arith) decode_euro refl

utf16-round_trip_example :
    utf16_to_code_point (units (code_point_to_utf16 face) ++ []) 2
    ≡ some (decoded_as face (length (units (code_point_to_utf16 face))))
utf16-round_trip_example = utf16-round_trip face [] 1 face-IsScalar

utf16_sound_example : Accepted16 (0xD83D ∷ 0xDE00 ∷ []) (decoded_as face 2)
utf16_sound_example =
    utf16_sound (0xD83D ∷ 0xDE00 ∷ []) 2 (decoded_as face 2) (omega arith) decode_face refl

get_into-scalars_example :
    (cps : List ℕ) × All IsScalar cps
    × Reads (0xE2 ∷ 0x82 ∷ 0x41 ∷ []) cps
    × (get_into char16 (0xE2 ∷ 0x82 ∷ 0x41 ∷ []) ≡ some (encode_all char16 cps))
get_into-scalars_example = get_into-scalars char16 (0xE2 ∷ 0x82 ∷ 0x41 ∷ []) (omega arith)

get_into-utf8_text_example :
    get_into char32 (utf8_text (0x20AC ∷ face ∷ [])) ≡ some (encode_all char32 (0x20AC ∷ face ∷ []))
get_into-utf8_text_example =
    get_into-utf8_text char32 (0x20AC ∷ face ∷ []) (euro-IsScalar, (face-IsScalar, tt))
