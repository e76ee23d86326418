-- ===== src/Unicode/Utf8/RoundTrip.antt =====
-- Decoding what `code_point_to_utf8` wrote.
use sol.Base.{
  length, ℕ, suc, ◌+◌, ◌/◌, ◌%◌, ◌<◌, ◌≤◌, ◌≡◌, arith, ltb, List, [], ◌∷◌, ◌++◌, some, inl, inr,
  Bool-cases,
}
use sol.Unicode.Scalars.{
  ok, units, is_surrogate, is_invalid, is_overlong, IsScalar, DecodedResult, last_code_point,
  decode_two, decode_three, decode_four,
}
use sol.Unicode.Utf8.{
  code_point_to_utf8, utf8_to_code_point, decode_unit, read_continuations, check_decoded,
  after_loop, decode_sequence,
}
use sol.Unicode.Utf8.Bytes

module _ (cp : ℕ) where
  pub units-one : cp < 128 → units (code_point_to_utf8 cp) ≡ cp ∷ []
  unfolding code_point_to_utf8
  units-one h = ground arith

  pub units-two :
      128 ≤ cp → cp < 2048 → units (code_point_to_utf8 cp) ≡ (192 + cp / 64) ∷ (128 + cp % 64) ∷ []
  unfolding code_point_to_utf8
  units-two h k = ground (
    arith,
    Bytes.shifted_7c0 cp,
    Bytes.and_trail cp,
    Bytes.or_lead2 (cp / 64 % 32),
    Bytes.or_trail (cp % 64),
  )

  pub units-three :
      2048 ≤ cp
      → cp < 65536
      → units (code_point_to_utf8 cp)
        ≡ (224 + cp / 4096) ∷ (128 + cp / 64 % 64) ∷ (128 + cp % 64) ∷ []
  unfolding code_point_to_utf8
  units-three h k = ground (
    arith,
    Bytes.shifted_f000 cp,
    Bytes.shifted_fc0 cp,
    Bytes.and_trail cp,
    Bytes.or_lead3 (cp / 4096 % 16),
    Bytes.or_trail (cp / 64 % 64),
    Bytes.or_trail (cp % 64),
  )

  pub units-four :
      65536 ≤ cp
      → cp ≤ last_code_point
      → units (code_point_to_utf8 cp)
        ≡ (240 + cp / 262144) ∷ (128 + cp / 4096 % 64) ∷ (128 + cp / 64 % 64) ∷ (128 + cp % 64) ∷ []
  unfolding code_point_to_utf8
  units-four h k = ground (
    arith,
    Bytes.shifted_1c0000 cp,
    Bytes.shifted_3f000 cp,
    Bytes.shifted_fc0 cp,
    Bytes.and_trail cp,
    Bytes.or_lead4 (cp / 262144 % 8),
    Bytes.or_trail (cp / 4096 % 64),
    Bytes.or_trail (cp / 64 % 64),
    Bytes.or_trail (cp % 64),
  )

abbrev pub decoded_as : ℕ → ℕ → DecodedResult
decoded_as cp n = record { error = ok; codepoint = some cp; next = some n }

module _ (b0 b1 : ℕ) (memory : List ℕ) (trail1 : 128 ≤ b1) (below1 : b1 < 192) where
  pub decode-lead2 :
      194 ≤ b0 → b0 < 224 → decode_unit b0 (b1 ∷ memory) ≡ some (check_decoded (decode_two b0 b1) 2)
  unfolding decode_unit read_continuations after_loop is_invalid decode_sequence
  decode-lead2 h k = ground (
    arith,
    Bytes.sequence_length-range b0,
    Bytes.is_continuation-range b0,
    Bytes.is_continuation-range b1,
  )

  pub decode-lead3 :
      (b2 : ℕ)
      → 224 ≤ b0
      → b0 < 240
      → 128 ≤ b2
      → b2 < 192
      → decode_unit b0 (b1 ∷ b2 ∷ memory) ≡ some (check_decoded (decode_three b0 b1 b2) 3)
  unfolding decode_unit read_continuations after_loop is_invalid decode_sequence
  decode-lead3 b2 h k p q = ground (
    arith,
    Bytes.sequence_length-range b0,
    Bytes.is_continuation-range b0,
    Bytes.is_continuation-range b1,
    Bytes.is_continuation-range b2,
  )

  pub decode-lead4 :
      (b2 b3 : ℕ)
      → 240 ≤ b0
      → b0 < 245
      → 128 ≤ b2
      → b2 < 192
      → 128 ≤ b3
      → b3 < 192
      → decode_unit b0 (b1 ∷ b2 ∷ b3 ∷ memory) ≡ some (check_decoded (decode_four b0 b1 b2 b3) 4)
  unfolding decode_unit read_continuations after_loop is_invalid decode_sequence
  decode-lead4 b2 b3 h k p q r s = ground (
    arith,
    Bytes.sequence_length-range b0,
    Bytes.is_continuation-range b0,
    Bytes.is_continuation-range b1,
    Bytes.is_continuation-range b2,
    Bytes.is_continuation-range b3,
  )

-- The checks after the loop pass a scalar value that has no shorter form.
check-two : (cp : ℕ) → 128 ≤ cp → cp < 2048 → check_decoded cp 2 ≡ decoded_as cp 2
unfolding check_decoded is_overlong is_surrogate
check-two cp h k = ground arith

check-three : (cp : ℕ) → IsScalar cp → 2048 ≤ cp → check_decoded cp 3 ≡ decoded_as cp 3
unfolding check_decoded is_overlong
check-three cp v h = ground (arith, v.no_surrogate)

check-four : (cp : ℕ) → IsScalar cp → 65536 ≤ cp → check_decoded cp 4 ≡ decoded_as cp 4
unfolding check_decoded is_overlong
check-four cp v h = ground (arith, v.no_surrogate)

module _ (cp : ℕ) (v : IsScalar cp) (memory : List ℕ) (room : ℕ) where
  abbrev Decodes : List ℕ → Type 0
  Decodes us = utf8_to_code_point (us ++ memory) (suc room) ≡ some (decoded_as cp (length us))

  round_trip-one : cp < 128 → Decodes (units (code_point_to_utf8 cp))
  unfolding utf8_to_code_point decode_unit
  round_trip-one h = rw (units-one cp h) (ground (arith, Bytes.sequence_length-range cp))

  round_trip-two : 128 ≤ cp → cp < 2048 → Decodes (units (code_point_to_utf8 cp))
  unfolding utf8_to_code_point
  round_trip-two h k =
      let b0 = 192 + cp / 64 in
      let b1 = 128 + cp % 64 in
      let sum : decode_two b0 b1 ≡ cp = omega (arith, Bytes.decode_two-sum b0 b1) in
      rw (
        units-two cp h k,
        decode-lead2 b0 b1 memory (omega arith) (omega arith) (omega arith) (omega arith),
        sum,
        check-two cp h k,
      )

  round_trip-three : 2048 ≤ cp → cp < 65536 → Decodes (units (code_point_to_utf8 cp))
  unfolding utf8_to_code_point
  round_trip-three h k =
      let b0 = 224 + cp / 4096 in
      let b1 = 128 + cp / 64 % 64 in
      let b2 = 128 + cp % 64 in
      let sum : decode_three b0 b1 b2 ≡ cp = omega (arith, Bytes.decode_three-sum b0 b1 b2) in
      rw (
        units-three cp h k,
        decode-lead3 b0 b1 memory (omega arith) (omega arith) b2 (omega arith) (omega arith)
            (omega arith) (omega arith),
        sum,
        check-three cp v h,
      )

  round_trip-four : 65536 ≤ cp → Decodes (units (code_point_to_utf8 cp))
  unfolding utf8_to_code_point
  round_trip-four h =
      let b0 = 240 + cp / 262144 in
      let b1 = 128 + cp / 4096 % 64 in
      let b2 = 128 + cp / 64 % 64 in
      let b3 = 128 + cp % 64 in
      let lim = v.in_range in
      let sum : decode_four b0 b1 b2 b3 ≡ cp = omega (arith, Bytes.decode_four-sum b0 b1 b2 b3) in
      rw (
        units-four cp h lim,
        decode-lead4 b0 b1 memory (omega arith) (omega arith) b2 b3 (omega arith) (omega arith)
            (omega arith) (omega arith) (omega arith) (omega arith),
        sum,
        check-four cp v h,
      )

-- Whatever follows it in memory, and wherever in it `last` stands, the UTF-8 form of a scalar value
-- decodes to that value, and the iterator stops right behind it.
pub utf8-round_trip :
    (cp : ℕ) (memory : List ℕ) (room : ℕ)
    → IsScalar cp
    → utf8_to_code_point (units (code_point_to_utf8 cp) ++ memory) (suc room)
      ≡ some (decoded_as cp (length (units (code_point_to_utf8 cp))))
utf8-round_trip cp memory room v = elim (Bool-cases (ltb cp 128)) [
  | inl a ↦ round_trip-one cp v memory room (ground arith)
  | inr a ↦ elim (Bool-cases (ltb cp 2048)) [
    | inl b ↦ round_trip-two cp v memory room (ground arith) (ground arith)
    | inr b ↦ elim (Bool-cases (ltb cp 65536)) [
      | inl c ↦ round_trip-three cp v memory room (ground arith) (ground arith)
      | inr c ↦ round_trip-four cp v memory room (ground arith)
    ]
  ]
]
