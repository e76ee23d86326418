-- ===== src/Unicode/Utf8/Decoding.antt =====
-- What an accepted sequence looks like: decoding accepts the shortest form of scalar values only.
use sol.Base.{
  length, ℕ, zero, suc, ◌<◌, ◌≤◌, ◌≡◌, arith, List, [], ◌∷◌, ◌++◌, some, false, ◌⊎◌, inl, inr, All,
  sym, ap, ◌∙◌,
}
use sol.Unicode.Scalars.{
  IsByte, ok, units, is_surrogate, is_overlong, IsScalar, DecodedResult, decode_two, decode_three,
  decode_four,
}
use sol.Unicode.Utf8.{code_point_to_utf8, utf8_to_code_point, decode_unit, check_decoded}
use sol.Unicode.Utf8.RoundTrip.{
  decoded_as, units-one, units-two, units-three, units-four, decode-lead2, decode-lead3,
  decode-lead4,
}
use sol.Unicode.Utf8.Bytes
use sol.Unicode.Utf8.Reads.{IsTrail, lead2_reads, lead3_reads, lead4_reads, no_lead}

-- `memory` starts with the UTF-8 form of the scalar value `cp`, and `r` says so.
pub record IsDecoding (memory : List ℕ) (r : DecodedResult) (cp : ℕ) (rest : List ℕ) : Type 0 where
  pub scalar : IsScalar cp
  pub starts : memory ≡ units (code_point_to_utf8 cp) ++ rest
  pub reports : r ≡ decoded_as cp (length (units (code_point_to_utf8 cp)))

-- The checks after the loop let a decoded value through only if it is a scalar value in its shortest form.
check-ok :
    (d n : ℕ)
    → (check_decoded d n).error ≡ ok
    → IsScalar d × (is_overlong d n ≡ false) × (check_decoded d n ≡ decoded_as d n)
unfolding check_decoded
check-ok d n h = ground arith

-- From the checks of a decoded value to its UTF-8 form, which the bytes `us` are.
accept :
    (d : ℕ) (us rest : List ℕ) (r : DecodedResult)
    → r.error ≡ ok
    → check_decoded d (length us) ≡ r
    → (IsScalar d → is_overlong d (length us) ≡ false → units (code_point_to_utf8 d) ≡ us)
    → IsDecoding (us ++ rest) r d rest
accept d us rest r fine e form =
    let checked = check-ok d (length us) (ap (λ (x : DecodedResult). x.error) e ∙ fine) in
    let same = form checked.0 checked.1 in
    record { scalar = checked.0; starts = rw same; reports = rw same (sym e ∙ checked.2) }

module _ (b0 : ℕ) (r : DecodedResult) (fine : r.error ≡ ok) where
  accept-lead2 :
      (b1 : ℕ) (rest : List ℕ)
      → IsTrail b1
      → 194 ≤ b0
      → b0 < 224
      → decode_unit b0 (b1 ∷ rest) ≡ some r
      → IsDecoding (b0 ∷ b1 ∷ rest) r (decode_two b0 b1) rest
  accept-lead2 b1 rest t h k e =
      accept (decode_two b0 b1) (b0 ∷ b1 ∷ []) rest r fine
        (cc (decode-lead2 b0 b1 rest t.0 t.1 h k))
        λ v o. ground (arith, units-two (decode_two b0 b1), Bytes.decode_two-sum b0 b1)

  accept-lead3 :
      (b1 b2 : ℕ) (rest : List ℕ)
      → IsTrail b1
      → IsTrail b2
      → 224 ≤ b0
      → b0 < 240
      → decode_unit b0 (b1 ∷ b2 ∷ rest) ≡ some r
      → IsDecoding (b0 ∷ b1 ∷ b2 ∷ rest) r (decode_three b0 b1 b2) rest
  unfolding is_overlong
  accept-lead3 b1 b2 rest t u h k e =
      accept (decode_three b0 b1 b2) (b0 ∷ b1 ∷ b2 ∷ []) rest r fine
        (cc (decode-lead3 b0 b1 rest t.0 t.1 b2 h k u.0 u.1))
        λ v o. ground (arith, units-three (decode_three b0 b1 b2), Bytes.decode_three-sum b0 b1 b2)

  accept-lead4 :
      (b1 b2 b3 : ℕ) (rest : List ℕ)
      → IsTrail b1
      → IsTrail b2
      → IsTrail b3
      → 240 ≤ b0
      → b0 < 245
      → decode_unit b0 (b1 ∷ b2 ∷ b3 ∷ rest) ≡ some r
      → IsDecoding (b0 ∷ b1 ∷ b2 ∷ b3 ∷ rest) r (decode_four b0 b1 b2 b3) rest
  unfolding is_overlong
  accept-lead4 b1 b2 b3 rest t u w h k e =
      accept (decode_four b0 b1 b2 b3) (b0 ∷ b1 ∷ b2 ∷ b3 ∷ []) rest r fine
        (cc (decode-lead4 b0 b1 rest t.0 t.1 b2 b3 h k u.0 u.1 w.0 w.1))
        λ v o. ground (
          arith,
          v.in_range,
          units-four (decode_four b0 b1 b2 b3),
          Bytes.decode_four-sum b0 b1 b2 b3,
        )

  accept-ascii :
      (rest : List ℕ) → b0 < 128 → decode_unit b0 rest ≡ some r → IsDecoding (b0 ∷ rest) r b0 rest
  unfolding decode_unit is_surrogate
  accept-ascii rest h e = record {
    scalar = record { in_range = omega arith; no_surrogate = ground arith };
    starts = rw (units-one b0 h);
    reports = rw (units-one b0 h) (ground (arith, Bytes.sequence_length-range b0));
  }

abbrev pub Accepted : List ℕ → DecodedResult → Type 0
Accepted memory r = (cp : ℕ) × (rest : List ℕ) × IsDecoding memory r cp rest

module _ (b0 : ℕ) (m : List ℕ) (r : DecodedResult) (fine : r.error ≡ ok) (bytes : All IsByte m)
    (e : decode_unit b0 m ≡ some r) where
  accept-range2 : 194 ≤ b0 → b0 < 224 → Accepted (b0 ∷ m) r
  accept-range2 h k =
      let (b1, rest, eq, t) = lead2_reads b0 r fine m bytes h k e in
      rw eq (decode_two b0 b1, rest, accept-lead2 b0 r fine b1 rest t h k (rw eq at e))

  accept-range3 : 224 ≤ b0 → b0 < 240 → Accepted (b0 ∷ m) r
  accept-range3 h k =
      let (b1, b2, rest, eq, t, u) = lead3_reads b0 r fine m bytes h k e in
      rw eq (decode_three b0 b1 b2, rest, accept-lead3 b0 r fine b1 b2 rest t u h k (rw eq at e))

  accept-range4 : 240 ≤ b0 → b0 < 256 → Accepted (b0 ∷ m) r
  accept-range4 h k =
      let (b1, b2, b3, rest, eq, top, t, u, w) = lead4_reads b0 r fine m bytes h k e in
      rw eq (
        decode_four b0 b1 b2 b3,
        rest,
        accept-lead4 b0 r fine b1 b2 b3 rest t u w h top (rw eq at e),
      )

lead_ranges :
    (b : ℕ)
    → b < 256
    → (b < 128)
      ⊎ (((128 ≤ b) × (b < 194))
          ⊎ (((194 ≤ b) × (b < 224)) ⊎ (((224 ≤ b) × (b < 240)) ⊎ (240 ≤ b))))
lead_ranges b h = grind arith

-- What is accepted is the shortest UTF-8 form of a scalar value: a decoding without an error gives
-- a value that is no surrogate and at most 0x10FFFF, the memory starts with what
-- `code_point_to_utf8` writes for that value, and the iterator moves over just those units.
pub utf8_sound :
    (memory : List ℕ) (room : ℕ) (r : DecodedResult)
    → All IsByte memory
    → utf8_to_code_point memory room ≡ some r
    → r.error ≡ ok
    → Accepted memory r
unfolding utf8_to_code_point
utf8_sound memory zero r bytes e fine = absurd (ground arith)
utf8_sound [] (suc room) r bytes e fine = absurd (cc)
utf8_sound (b0 ∷ m) (suc room) r bytes e fine = elim (lead_ranges b0 bytes.0) [
  | inl a ↦ (b0, m, accept-ascii b0 r fine m a e)
  | inr (inl (b, b')) ↦ absurd (no_lead b0 r fine m b b' e)
  | inr (inr (inl (c, c'))) ↦ accept-range2 b0 m r fine bytes.1 e c c'
  | inr (inr (inr (inl (d, d')))) ↦ accept-range3 b0 m r fine bytes.1 e d d'
  | inr (inr (inr (inr d))) ↦ accept-range4 b0 m r fine bytes.1 e d bytes.0
]
