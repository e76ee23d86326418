-- ===== src/Unicode/Utf8/Reads.antt =====
-- What stands behind a lead byte that `decode_unit` accepts.
use sol.Base.{ℕ, ◌<◌, ◌≤◌, ◌≡◌, refl, arith, List, [], ◌∷◌, some, All}
use sol.Unicode.Scalars.{IsByte, ok, is_invalid, DecodedResult}
use sol.Unicode.Utf8.{decode_unit, read_continuations, after_loop}
use sol.Unicode.Utf8.Bytes

abbrev pub IsTrail : ℕ → Type 0
IsTrail b = (128 ≤ b) × (b < 192)

-- A lead byte is accepted only with its trailing bytes.
module _ (b0 : ℕ) (r : DecodedResult) (fine : r.error ≡ ok) where
  pub lead2_reads :
      (m : List ℕ)
      → All IsByte m
      → 194 ≤ b0
      → b0 < 224
      → decode_unit b0 m ≡ some r
      → (b1 : ℕ) × (rest : List ℕ) × (m ≡ b1 ∷ rest) × IsTrail b1
  unfolding decode_unit read_continuations after_loop is_invalid
  lead2_reads [] bytes h k e =
      absurd (ground (arith, Bytes.sequence_length-range b0, Bytes.is_continuation-range b0))
  lead2_reads (b1 ∷ rest) bytes h k e = (
    b1,
    rest,
    refl,
    ground (
      arith,
      Bytes.sequence_length-range b0,
      Bytes.is_continuation-range b0,
      Bytes.is_continuation-range b1,
    ),
  )

  pub lead3_reads :
      (m : List ℕ)
      → All IsByte m
      → 224 ≤ b0
      → b0 < 240
      → decode_unit b0 m ≡ some r
      → (b1 b2 : ℕ) × (rest : List ℕ) × (m ≡ b1 ∷ b2 ∷ rest) × IsTrail b1 × IsTrail b2
  unfolding decode_unit read_continuations after_loop is_invalid
  lead3_reads [] bytes h k e =
      absurd (ground (arith, Bytes.sequence_length-range b0, Bytes.is_continuation-range b0))
  lead3_reads (b1 ∷ []) bytes h k e = absurd (
      ground (
        arith,
        Bytes.sequence_length-range b0,
        Bytes.is_continuation-range b0,
        Bytes.is_continuation-range b1,
      ))
  lead3_reads (b1 ∷ b2 ∷ rest) bytes h k e = (b1, b2, rest, refl, reads.0, reads.1)
    where
      reads : IsTrail b1 × IsTrail b2
      reads = ground (
        arith,
        Bytes.sequence_length-range b0,
        Bytes.is_continuation-range b0,
        Bytes.is_continuation-range b1,
        Bytes.is_continuation-range b2,
      )

  pub lead4_reads :
      (m : List ℕ)
      → All IsByte m
      → 240 ≤ b0
      → b0 < 256
      → decode_unit b0 m ≡ some r
      → (b1 b2 b3 : ℕ) × (rest : List ℕ) × (m ≡ b1 ∷ b2 ∷ b3 ∷ rest)
        × (b0 < 245)
        × IsTrail b1
        × IsTrail b2
        × IsTrail b3
  unfolding decode_unit read_continuations after_loop is_invalid
  lead4_reads [] bytes h k e =
      absurd (ground (arith, Bytes.sequence_length-range b0, Bytes.is_continuation-range b0))
  lead4_reads (b1 ∷ []) bytes h k e = absurd (
      ground (
        arith,
        Bytes.sequence_length-range b0,
        Bytes.is_continuation-range b0,
        Bytes.is_continuation-range b1,
      ))
  lead4_reads (b1 ∷ b2 ∷ []) bytes h k e = absurd (
      ground (
        arith,
        Bytes.sequence_length-range b0,
        Bytes.is_continuation-range b0,
        Bytes.is_continuation-range b1,
        Bytes.is_continuation-range b2,
      ))
  lead4_reads (b1 ∷ b2 ∷ b3 ∷ rest) bytes h k e =
      (b1, b2, b3, rest, refl, reads.0, reads.1, reads.2, reads.3)
    where
      reads : (b0 < 245) × IsTrail b1 × IsTrail b2 × IsTrail b3
      reads = ground (
        arith,
        Bytes.sequence_length-range b0,
        Bytes.is_continuation-range b0,
        Bytes.is_continuation-range b1,
        Bytes.is_continuation-range b2,
        Bytes.is_continuation-range b3,
      )

  -- 0x80 to 0xC1 begin nothing.
  pub no_lead : (m : List ℕ) → 128 ≤ b0 → b0 < 194 → ¬ (decode_unit b0 m ≡ some r)
  unfolding decode_unit is_invalid
  no_lead m h k e = ground (arith, Bytes.sequence_length-range b0, Bytes.is_continuation-range b0)
