-- ===== src/Unicode/Utf8/Bytes.antt =====
-- The masks of the UTF-8 functions as arithmetic.
use sol.Base.{
  ℕ, ◌+◌, ◌*◌, ◌/◌, ◌%◌, ◌^◌, ◌-◌, ◌<◌, ◌≡◌, arith, bit_and, bit_or, ltb, leb, ◌&&◌, if◌then◌else◌,
}
use sol.Base.Bits.{and_low, and_block, or_disjoint}
use sol.Unicode.Scalars.{is_continuation, sequence_length, decode_two, decode_three, decode_four}

-- `a & (ones << k)`, as a block of digits of `a`.
and_ones : (k n a : ℕ) → bit_and a ((2 ^ n - 1) * 2 ^ k) ≡ a / 2 ^ k % 2 ^ n * 2 ^ k
and_ones k n a = ground (arith, and_block k a (2 ^ n - 1), and_low n (a / 2 ^ k))

module _ (b : ℕ) (h : b < 256) where
  pub is_continuation-range : is_continuation b ≡ (leb 128 b && ltb b 192)
  unfolding is_continuation
  is_continuation-range = ground (arith, and_ones 6 2 b)

  pub sequence_length-range :
      sequence_length b
      ≡ (if ltb b 128 then 1 else if ltb b 224 then 2 else if ltb b 240 then 3 else 4)
  unfolding sequence_length
  sequence_length-range = ground (arith, and_ones 7 1 b, and_ones 5 3 b, and_ones 4 4 b)

pub decode_two-sum : (b0 b1 : ℕ) → decode_two b0 b1 ≡ b0 % 32 * 64 + b1 % 64
unfolding decode_two
decode_two-sum b0 b1 = ground (arith, and_low 5 b0, and_low 6 b1, or_disjoint 6 (b0 % 32) (b1 % 64))

pub decode_three-sum :
    (b0 b1 b2 : ℕ) → decode_three b0 b1 b2 ≡ b0 % 16 * 4096 + b1 % 64 * 64 + b2 % 64
unfolding decode_three
decode_three-sum b0 b1 b2 = ground (
  arith,
  and_low 4 b0,
  and_low 6 b1,
  and_low 6 b2,
  or_disjoint 12 (b0 % 16) (b1 % 64 * 64),
  or_disjoint 6 (b0 % 16 * 64 + b1 % 64) (b2 % 64),
)

pub decode_four-sum :
    (b0 b1 b2 b3 : ℕ)
    → decode_four b0 b1 b2 b3 ≡ b0 % 8 * 262144 + b1 % 64 * 4096 + b2 % 64 * 64 + b3 % 64
unfolding decode_four
decode_four-sum b0 b1 b2 b3 = ground (
  arith,
  and_low 3 b0,
  and_low 6 b1,
  and_low 6 b2,
  and_low 6 b3,
  or_disjoint 18 (b0 % 8) (b1 % 64 * 4096),
  or_disjoint 12 (b0 % 8 * 64 + b1 % 64) (b2 % 64 * 64),
  or_disjoint 6 (b0 % 8 * 4096 + b1 % 64 * 64 + b2 % 64) (b3 % 64),
)

-- The lead bytes, and the trailing byte of six digits `x`.
pub or_lead2 : (x : ℕ) → x < 32 → bit_or 0xC0 x ≡ 192 + x
or_lead2 x h = or_disjoint 5 6 x h

pub or_lead3 : (x : ℕ) → x < 16 → bit_or 0xE0 x ≡ 224 + x
or_lead3 x h = or_disjoint 4 14 x h

pub or_lead4 : (x : ℕ) → x < 8 → bit_or 0xF0 x ≡ 240 + x
or_lead4 x h = or_disjoint 3 30 x h

pub or_trail : (x : ℕ) → x < 64 → bit_or 0x80 x ≡ 128 + x
or_trail x h = or_disjoint 6 2 x h

pub and_trail : (cp : ℕ) → bit_and cp 0x3F ≡ cp % 64
and_trail cp = and_low 6 cp

pub shifted_7c0 : (cp : ℕ) → bit_and cp 0x7C0 / 64 ≡ cp / 64 % 32
shifted_7c0 cp = omega (arith, and_ones 6 5 cp)

pub shifted_fc0 : (cp : ℕ) → bit_and cp 0xFC0 / 64 ≡ cp / 64 % 64
shifted_fc0 cp = omega (arith, and_ones 6 6 cp)

pub shifted_f000 : (cp : ℕ) → bit_and cp 0xF000 / 4096 ≡ cp / 4096 % 16
shifted_f000 cp = omega (arith, and_ones 12 4 cp)

pub shifted_3f000 : (cp : ℕ) → bit_and cp 0x3F000 / 4096 ≡ cp / 4096 % 64
shifted_3f000 cp = omega (arith, and_ones 12 6 cp)

pub shifted_1c0000 : (cp : ℕ) → bit_and cp 0x1C0000 / 262144 ≡ cp / 262144 % 8
shifted_1c0000 cp = omega (arith, and_ones 18 3 cp)
