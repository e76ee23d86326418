-- ===== src/Unicode/Utf16/Pairs.antt =====
-- Surrogate pairs: the round trip, and what a decoding without an error means.
use sol.Base.{
  ℕ, zero, suc, ◌+◌, ◌-◌, ◌*◌, ◌/◌, ◌%◌, ◌^◌, ◌<◌, ◌≤◌, ◌≡◌, arith, List, [], ◌∷◌, ◌++◌, some, true,
  false, inl, inr, Bool-cases, All, length, leb, bit_and,
}
use sol.Base.Bits.{and_low, and_block, or_disjoint}
use sol.Unicode.Scalars.{
  ok, units, is_surrogate, is_lead_surrogate, is_trail_surrogate, combine_surrogates, IsScalar,
  DecodedResult, last_code_point,
}
use sol.Unicode.Utf16.{code_point_to_utf16, utf16_to_code_point, after_lead}
use sol.Unicode.Utf8.RoundTrip.{decoded_as}

lead_bits : (n : ℕ) → bit_and n 0xFFC00 / 2 ^ 10 ≡ n / 1024 % 1024
lead_bits n = ground (arith, and_block 10 n 1023, and_low 10 (n / 1024))

combine-sum :
    (lead trail : ℕ)
    → trail < 0xE000
    → combine_surrogates lead trail ≡ 0x10000 + ((lead - 0xD800) * 1024 + (trail - 0xDC00))
unfolding combine_surrogates
combine-sum lead trail h = ground (arith, or_disjoint 10 (lead - 0xD800) (trail - 0xDC00))

module _ (cp : ℕ) where
  pub units-single : cp < 65536 → units (code_point_to_utf16 cp) ≡ cp ∷ []
  unfolding code_point_to_utf16
  units-single h = ground arith

  pub units-pair :
      65536 ≤ cp
      → cp ≤ last_code_point
      → units (code_point_to_utf16 cp)
        ≡ (0xD800 + (cp - 65536) / 1024) ∷ (0xDC00 + (cp - 65536) % 1024) ∷ []
  unfolding code_point_to_utf16
  units-pair h k = ground (arith, lead_bits (cp - 65536), and_low 10 (cp - 65536))

decode-pair :
    (hi lo room : ℕ) (memory : List ℕ)
    → hi < 1024
    → lo < 1024
    → utf16_to_code_point ((0xD800 + hi) ∷ (0xDC00 + lo) ∷ memory) (suc room)
      ≡ some (decoded_as (0x10000 + (hi * 1024 + lo)) 2)
unfolding utf16_to_code_point after_lead is_surrogate is_lead_surrogate is_trail_surrogate
decode-pair hi lo room memory h k = ground (arith, combine-sum (0xD800 + hi) (0xDC00 + lo))

round_trip-pair :
    (cp room : ℕ) (memory : List ℕ)
    → 65536 ≤ cp
    → cp ≤ last_code_point
    → utf16_to_code_point (units (code_point_to_utf16 cp) ++ memory) (suc room)
      ≡ some (decoded_as cp (length (units (code_point_to_utf16 cp))))
round_trip-pair cp room memory h k =
    let n = cp - 65536 in
    let back : 0x10000 + (n / 1024 * 1024 + n % 1024) ≡ cp = omega arith in
    rw (
      units-pair cp h k,
      decode-pair (n / 1024) (n % 1024) room memory (omega arith) (omega arith),
      back,
    )

-- Whatever follows it, and wherever `last` stands, the UTF-16 form of a scalar value decodes to
-- that value, and the iterator stops right behind it.
pub utf16-round_trip :
    (cp : ℕ) (memory : List ℕ) (room : ℕ)
    → IsScalar cp
    → utf16_to_code_point (units (code_point_to_utf16 cp) ++ memory) (suc room)
      ≡ some (decoded_as cp (length (units (code_point_to_utf16 cp))))
utf16-round_trip cp memory room v = elim (Bool-cases (leb cp 0xFFFF)) [
  | inl a ↦
      rw (units-single cp (ground arith))
        (unfold utf16_to_code_point in ground (arith, v.no_surrogate))
  | inr a ↦ round_trip-pair cp room memory (ground arith) v.in_range
]

abbrev pub IsUnit16 : ℕ → Type 0
IsUnit16 u = u < 65536

-- `memory` starts with the UTF-16 form of the scalar value `cp`, and `r` says so.
pub record IsDecoding16 (memory : List ℕ) (r : DecodedResult) (cp : ℕ) (rest : List ℕ)
    : Type 0 where
  pub scalar : IsScalar cp
  pub starts : memory ≡ units (code_point_to_utf16 cp) ++ rest
  pub reports : r ≡ decoded_as cp (length (units (code_point_to_utf16 cp)))

abbrev pub Accepted16 : List ℕ → DecodedResult → Type 0
Accepted16 memory r = (cp : ℕ) × (rest : List ℕ) × IsDecoding16 memory r cp rest

accept-single :
    (u : ℕ) (rest : List ℕ)
    → u < 65536
    → is_surrogate u ≡ false
    → IsDecoding16 (u ∷ rest) (decoded_as u 1) u rest
accept-single u rest h s = record {
  scalar = record { in_range = omega arith; no_surrogate = s };
  starts = rw (units-single u h);
  reports = rw (units-single u h);
}

accept-pair :
    (hi lo : ℕ) (rest : List ℕ)
    → hi < 1024
    → lo < 1024
    → let cp = 0x10000 + (hi * 1024 + lo) in
      IsDecoding16 ((0xD800 + hi) ∷ (0xDC00 + lo) ∷ rest) (decoded_as cp 2) cp rest
unfolding is_surrogate
accept-pair hi lo rest h k =
    let cp = 0x10000 + (hi * 1024 + lo) in
    let same : units (code_point_to_utf16 cp) ≡ (0xD800 + hi) ∷ (0xDC00 + lo) ∷ [] =
      ground (arith, units-pair cp) in
    record {
      scalar = record { in_range = omega arith; no_surrogate = ground arith };
      starts = rw same;
      reports = rw same;
    }

accepted-pair :
    (lead trail room : ℕ) (memory : List ℕ) (r : DecodedResult)
    → is_lead_surrogate lead ≡ true
    → is_trail_surrogate trail ≡ true
    → utf16_to_code_point (lead ∷ trail ∷ memory) (suc room) ≡ some r
    → Accepted16 (lead ∷ trail ∷ memory) r
unfolding is_lead_surrogate is_trail_surrogate
accepted-pair lead trail room memory r h k e =
    let hi = lead - 0xD800 in
    let lo = trail - 0xDC00 in
    let is_lead : 0xD800 + hi ≡ lead = ground arith in
    let is_trail : 0xDC00 + lo ≡ trail = ground arith in
    let small : hi < 1024 = ground arith in
    let small' : lo < 1024 = ground arith in
    let decodes = decode-pair hi lo room memory small small' in
    let result : decoded_as (0x10000 + (hi * 1024 + lo)) 2 ≡ r =
      cc (e, is_lead, is_trail, decodes) in
    (
      0x10000 + (hi * 1024 + lo),
      memory,
      rw (is_lead, is_trail, result) at (accept-pair hi lo memory small small'),
    )

accepted-single :
    (lead room : ℕ) (memory : List ℕ) (r : DecodedResult)
    → lead < 65536
    → is_surrogate lead ≡ false
    → utf16_to_code_point (lead ∷ memory) (suc room) ≡ some r
    → Accepted16 (lead ∷ memory) r
accepted-single lead room memory r h s e =
    let result : decoded_as lead 1 ≡ r = unfold utf16_to_code_point in ground arith in
    (lead, memory, rw result at (accept-single lead memory h s))

-- A surrogate is accepted only as the first unit of a pair.
module _ (lead room : ℕ) (r : DecodedResult) (fine : r.error ≡ ok)
    (s : is_surrogate lead ≡ true) where
  lone_surrogate : ¬ (utf16_to_code_point (lead ∷ []) (suc room) ≡ some r)
  unfolding utf16_to_code_point after_lead
  lone_surrogate e = ground arith

  pair_of :
      (trail : ℕ) (memory : List ℕ)
      → utf16_to_code_point (lead ∷ trail ∷ memory) (suc room) ≡ some r
      → (is_lead_surrogate lead ≡ true) × (is_trail_surrogate trail ≡ true)
  unfolding utf16_to_code_point after_lead
  pair_of trail memory e = ground arith

-- A decoding without an error gives a scalar value: the units start with what
-- `code_point_to_utf16` writes for it, and the iterator moves over just those units.
pub utf16_sound :
    (memory : List ℕ) (room : ℕ) (r : DecodedResult)
    → All IsUnit16 memory
    → utf16_to_code_point memory room ≡ some r
    → r.error ≡ ok
    → Accepted16 memory r
utf16_sound memory zero r small e fine = absurd (unfold utf16_to_code_point in ground arith)
utf16_sound [] (suc room) r small e fine = absurd (unfold utf16_to_code_point in cc)
utf16_sound (lead ∷ []) (suc room) r small e fine = elim (Bool-cases (is_surrogate lead)) [
  | inl s ↦ absurd (lone_surrogate lead room r fine s e)
  | inr s ↦ accepted-single lead room [] r small.0 s e
]
utf16_sound (lead ∷ trail ∷ memory) (suc room) r small e fine =
    elim (Bool-cases (is_surrogate lead)) [
      | inl s ↦
          let (h, k) = pair_of lead room r fine s trail memory e in
          accepted-pair lead trail room memory r h k e
      | inr s ↦ accepted-single lead room (trail ∷ memory) r small.0 s e
    ]
