-- ===== src/Unicode/Scalars.antt =====
-- unicode.hpp: error codes, results and the constants and tests of `unicode_detail`.
use sol.Base.{
  ◌<◌, ◌≡◌, ℕ, ◌+◌, ◌*◌, ◌≤◌, ◌^◌, ◌-◌, Bool, ◌&&◌, ◌||◌, not, List, Option, ltb, leb, ◌==◌, take,
  bit_and, bit_or, if◌then◌else◌,
}

pub data ErrorCode : Type 0 where
  ok invalid_code_point invalid_code_unit invalid_leading_surrogate : ErrorCode
  invalid_trailing_surrogate sequence_too_short overlong_sequence : ErrorCode

-- `next` is the distance from the iterator that was passed in. `none` in a field: the code leaves
-- the field uninitialised.
pub record DecodedResult : Type 0 where
  pub error : ErrorCode
  pub codepoint : Option ℕ
  pub next : Option ℕ

pub record EncodedResult : Type 0 where
  pub error : ErrorCode
  pub code_units_size : ℕ
  pub code_units : List ℕ

-- What a user of an encoded result reads: the first `code_units_size` units.
abbrev pub units : EncodedResult → List ℕ
units er = take er.code_units_size er.code_units

abbrev pub last_code_point : ℕ
last_code_point = 0x10FFFF

abbrev pub first_lead_surrogate : ℕ
first_lead_surrogate = 0xD800

abbrev pub last_lead_surrogate : ℕ
last_lead_surrogate = 0xDBFF

abbrev pub first_trail_surrogate : ℕ
first_trail_surrogate = 0xDC00

abbrev pub last_trail_surrogate : ℕ
last_trail_surrogate = 0xDFFF

unfoldable pub is_lead_surrogate : ℕ → Bool
is_lead_surrogate u = leb first_lead_surrogate u && leb u last_lead_surrogate

unfoldable pub is_trail_surrogate : ℕ → Bool
is_trail_surrogate u = leb first_trail_surrogate u && leb u last_trail_surrogate

unfoldable pub is_surrogate : ℕ → Bool
is_surrogate u = leb first_lead_surrogate u && leb u last_trail_surrogate

abbrev pub last_1byte_value : ℕ
last_1byte_value = 0x7F

abbrev pub last_2byte_value : ℕ
last_2byte_value = 0x7FF

abbrev pub last_3byte_value : ℕ
last_3byte_value = 0xFFFF

unfoldable pub is_invalid : ℕ → Bool
is_invalid b = b == 0xC0 || b == 0xC1 || ltb 0xF4 b

unfoldable pub is_continuation : ℕ → Bool
is_continuation b = bit_and b 0xC0 == 0x80

unfoldable pub is_overlong : ℕ → ℕ → Bool
is_overlong u bytes =
    leb u last_1byte_value
    || (leb u last_2byte_value && ltb 2 bytes)
    || (leb u last_3byte_value && ltb 3 bytes)

unfoldable pub sequence_length : ℕ → ℕ
sequence_length b =
    if bit_and b 0x80 == 0
    then 1
    else if not (bit_and b 0xE0 == 0xE0)
    then 2
    else if not (bit_and b 0xF0 == 0xF0)
    then 3
    else 4

unfoldable pub decode_two : ℕ → ℕ → ℕ
decode_two b0 b1 = bit_or (bit_and b0 0x1F * 2 ^ 6) (bit_and b1 0x3F)

unfoldable pub decode_three : ℕ → ℕ → ℕ → ℕ
decode_three b0 b1 b2 =
    bit_or (bit_or (bit_and b0 0x0F * 2 ^ 12) (bit_and b1 0x3F * 2 ^ 6)) (bit_and b2 0x3F)

unfoldable pub decode_four : ℕ → ℕ → ℕ → ℕ → ℕ
decode_four b0 b1 b2 b3 =
    bit_or
      (bit_or (bit_or (bit_and b0 0x07 * 2 ^ 18) (bit_and b1 0x3F * 2 ^ 12))
        (bit_and b2 0x3F * 2 ^ 6))
      (bit_and b3 0x3F)

abbrev pub last_bmp_value : ℕ
last_bmp_value = 0xFFFF

abbrev pub normalizing_value : ℕ
normalizing_value = 0x10000

abbrev pub replacement : ℕ
replacement = 0xFFFD

-- Both differences are taken of surrogates, which are not below the values subtracted.
unfoldable pub combine_surrogates : ℕ → ℕ → ℕ
combine_surrogates lead trail =
    let hi = lead - first_lead_surrogate in
    let lo = trail - first_trail_surrogate in normalizing_value + bit_or (hi * 2 ^ 10) lo

-- A Unicode scalar value: a code point that is no surrogate.
pub record IsScalar (cp : ℕ) : Type 0 where
  pub in_range : cp ≤ last_code_point
  pub no_surrogate : is_surrogate cp ≡ Bool.false

-- The bytes of a text.
abbrev pub IsByte : ℕ → Type 0
IsByte b = b < 256
