-- ===== src/Unicode/Utf8/Within.antt =====
-- Decoding inside a text that a zero unit ends, as every Lua string has one.
use sol.Base.{
  ◌-◌, ◌||◌, length, ℕ, zero, suc, ◌+◌, ◌≤◌, ◌≡◌, refl, arith, List, [], ◌∷◌, ◌++◌, some, Option,
  inl, inr, Bool-cases, ◌==◌,
}
use sol.Unicode.Scalars.{is_invalid, is_continuation, sequence_length, DecodedResult}
use sol.Unicode.Utf8.{
  Continuations, complete, broken, unreadable, prepend, utf8_to_code_point, decode_unit,
  read_continuations, check_decoded, after_loop,
}

-- `n` rounds that start at offset `i` end before the offset `i + left + 1`.
abbrev EndsWithin : ℕ → ℕ → ℕ → Continuations → Type 0
EndsWithin n i left (complete bs) = (length bs ≡ n) × (n ≤ left)
EndsWithin n i left (broken at) = at ≤ i + left
EndsWithin n i left unreadable = ⊥

EndsWithin-prepend :
    (n i left b : ℕ) (c : Continuations)
    → EndsWithin n (suc i) left c
    → EndsWithin (suc n) i (suc left) (prepend b c)
EndsWithin-prepend n i left b (complete bs) h = omega arith
EndsWithin-prepend n i left b (broken at) h = omega arith
EndsWithin-prepend n i left b unreadable h = h

read_continuations-EndsWithin :
    (n i : ℕ) (s rest : List ℕ) → EndsWithin n i (length s) (read_continuations n i (s ++ 0 ∷ rest))
unfolding read_continuations
read_continuations-EndsWithin zero i s rest = (refl, omega arith)
read_continuations-EndsWithin (suc n) i [] rest = unfold is_continuation in omega arith
read_continuations-EndsWithin (suc n) i (b ∷ s) rest = elim (Bool-cases (is_continuation b)) [
  | inl t ↦
      rw t (EndsWithin-prepend n i (length s) b _ (read_continuations-EndsWithin n (suc i) s rest))
  | inr f ↦ rw f (omega arith)
]

-- A result that leaves the iterator, if anywhere, at most at `last`.
abbrev pub StaysWithin : ℕ → Option DecodedResult → Type 0
StaysWithin room o = (r : DecodedResult) × (o ≡ some r) × ((n : ℕ) → r.next ≡ some n → n ≤ room)

after_loop-StaysWithin :
    (b0 n left : ℕ) (c : Continuations)
    → EndsWithin n 1 left c
    → StaysWithin (suc left) (after_loop b0 c)
unfolding after_loop check_decoded
after_loop-StaysWithin b0 n left (complete bs) h = (_, refl, λ m e. ground arith)
after_loop-StaysWithin b0 n left (broken at) h = (_, refl, λ m e. ground arith)
after_loop-StaysWithin b0 n left unreadable h = absurd h

decode_unit-StaysWithin :
    (b0 : ℕ) (s rest : List ℕ) → StaysWithin (suc (length s)) (decode_unit b0 (s ++ 0 ∷ rest))
unfolding decode_unit
decode_unit-StaysWithin b0 s rest = elim (Bool-cases (sequence_length b0 == 1)) [
  | inl t ↦ rw t (_, refl, λ m e. ground arith)
  | inr f ↦ elim (Bool-cases (is_invalid b0 || is_continuation b0)) [
    | inl t' ↦ rw (f, t') (_, refl, λ m e. ground arith)
    | inr f' ↦
        rw (f, f')
          (after_loop-StaysWithin b0 _ (length s) _
            (read_continuations-EndsWithin (sequence_length b0 - 1) 1 s rest))
  ]
]

-- On a text that a zero unit ends, decoding reads no unit behind the zero, and where it tells where
-- to go on, that is not behind the end of the text.
pub utf8-within :
    (s rest : List ℕ) → StaysWithin (length s) (utf8_to_code_point (s ++ 0 ∷ rest) (length s))
unfolding utf8_to_code_point
utf8-within [] rest = (_, refl, λ m e. ground arith)
utf8-within (b0 ∷ s) rest = decode_unit-StaysWithin b0 s rest
