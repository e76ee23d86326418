-- ===== src/Unicode/Convert/Steps.antt =====
-- One round of the loop inside a text that a zero unit ends.
use sol.Base.{
  ◌⊎◌, inl, inr, ℕ, ◌≤◌, ◌≡◌, refl, arith, List, [], ◌∷◌, ◌++◌, Option, none, some, All, length, ap,
  sym, suc, ◌∙◌, ◌≢◌, drop,
}
use sol.Unicode.Scalars.{
  IsByte, ErrorCode, ok, DecodedResult, IsScalar, units, is_surrogate, replacement,
}
use sol.Unicode.Utf8.{utf8_to_code_point, code_point_to_utf8}
use sol.Unicode.Utf8.Decoding.{utf8_sound}
use sol.Unicode.Utf8.RoundTrip.{decoded_as, utf8-round_trip}
use mathlib.Core.List.{append_assoc}
use sol.Unicode.Utf8.Within.{utf8-within}
use sol.Unicode.Convert.{next_code_point, use_result}

-- A round goes on by at least one unit, and not past the end.
pub record IsStep (room : ℕ) (o : Option (ℕ × ℕ)) (cp n : ℕ) : Type 0 where
  pub value : o ≡ some (cp, n)
  pub scalar : IsScalar cp
  pub moves : 1 ≤ n
  pub within : n ≤ room

pub replacement-IsScalar : IsScalar replacement
unfolding is_surrogate
replacement-IsScalar = record { in_range = omega arith; no_surrogate = refl }

pub length-units : (cp : ℕ) → 1 ≤ length (units (code_point_to_utf8 cp))
unfolding code_point_to_utf8
length-units cp = ground arith

ErrorCode-cases :
    (e : ErrorCode) → (e ≡ ok) ⊎ ((c n : Option ℕ) → use_result e c n ≡ some (replacement, 1))
unfolding use_result
ErrorCode-cases ok = inl refl
ErrorCode-cases _ = inr (λ c n. refl)

-- The text starts with the UTF-8 form of a scalar value.
abbrev pub StartsWith : List ℕ → ℕ → Type 0
StartsWith s c = (rest : List ℕ) × (s ≡ units (code_point_to_utf8 c) ++ rest)

-- What a round reads: the form of a scalar value that the text starts with, or one unit of a text that
-- starts with none.
abbrev pub Form : List ℕ → ℕ → ℕ → Type 0
Form s cp n =
    (s ≡ units (code_point_to_utf8 cp) ++ drop n s)
    ⊎ ((cp ≡ replacement) × (n ≡ 1) × ((c : ℕ) → IsScalar c → ¬ StartsWith s c))

abbrev pub HasStep : List ℕ → Type 0
HasStep s =
    (cp n : ℕ) × IsStep (length s) (next_code_point (s ++ 0 ∷ []) (length s)) cp n × Form s cp n

-- A prefix of the text with the zero that fits in the text is one of the text.
prefix_of :
    (us rest s : List ℕ) (z : List ℕ)
    → s ++ z ≡ us ++ rest
    → length us ≤ length s
    → s ≡ us ++ drop (length us) s
prefix_of [] rest s z e h = refl
prefix_of (u ∷ us) rest [] z e h = absurd (omega arith)
prefix_of (u ∷ us) rest (x ∷ s) z e h =
    let same : x ≡ u = cc in
    let tails : s ++ z ≡ us ++ rest = cc in
    rw same (ap (λ (l : List ℕ). u ∷ l) (prefix_of us rest s z tails (omega arith)))

-- A text that starts with a scalar value's form decodes without an error.
no_error :
    (s : List ℕ) (room : ℕ) (r : DecodedResult) (c : ℕ)
    → utf8_to_code_point (s ++ 0 ∷ []) (suc room) ≡ some r
    → IsScalar c
    → StartsWith s c
    → r.error ≡ ok
no_error s room r c e v (rest, starts) =
    let form = units (code_point_to_utf8 c) in
    let again : some r ≡ some (decoded_as c (length form)) =
      sym e
      ∙ ap (λ (l : List ℕ). utf8_to_code_point l (suc room))
          (ap (λ (l : List ℕ). l ++ 0 ∷ []) starts ∙ append_assoc form rest (0 ∷ []))
      ∙ utf8-round_trip c (rest ++ 0 ∷ []) room v in
    let same : r ≡ decoded_as c (length form) = cc in ap (λ (x : DecodedResult). x.error) same

not_used : (e : ErrorCode) → use_result e none none ≡ some (replacement, 1) → e ≢ ok
unfolding use_result
not_used e u same =
    let bad : use_result ok none none ≡ some (replacement, 1) =
      ap (λ (x : ErrorCode). use_result x none none) (sym same) ∙ u in
    cc

IsByte-memory : (s : List ℕ) → All IsByte s → All IsByte (s ++ 0 ∷ [])
IsByte-memory [] h = omega arith
IsByte-memory (b ∷ s) h = (h.0, IsByte-memory s h.1)

step_of :
    (s : List ℕ) (r : DecodedResult)
    → 1 ≤ length s
    → All IsByte s
    → utf8_to_code_point (s ++ 0 ∷ []) (length s) ≡ some r
    → ((n : ℕ) → r.next ≡ some n → n ≤ length s)
    → ((c : ℕ) → IsScalar c → StartsWith s c → r.error ≡ ok)
    → (r.error ≡ ok) ⊎ ((c n : Option ℕ) → use_result r.error c n ≡ some (replacement, 1))
    → HasStep s
unfolding next_code_point
step_of s r h bytes e bound clean (inl fine) =
    let (cp, rest, d) = utf8_sound (s ++ 0 ∷ []) (length s) r (IsByte-memory s bytes) e fine in
    (
      cp,
      length (units (code_point_to_utf8 cp)),
      record {
        value = rw (e, d.reports, next_code_point) (unfold use_result in refl);
        scalar = d.scalar;
        moves = length-units cp;
        within = bound _ (ap (λ (x : DecodedResult). x.next) d.reports);
      },
      inl (
          prefix_of (units (code_point_to_utf8 cp)) rest s (0 ∷ []) d.starts
            (bound _ (ap (λ (x : DecodedResult). x.next) d.reports))),
    )
step_of s r h bytes e bound clean (inr bad) = (
  replacement,
  1,
  record {
    value = rw (e, next_code_point) (bad r.codepoint r.next);
    scalar = replacement-IsScalar;
    moves = omega arith;
    within = h;
  },
  inr (refl, refl, λ c v starts. not_used r.error (bad none none) (clean c v starts)),
)

-- Every text that is not at its end has a next code point, which is a scalar value.
pub HasStep-cons : (b : ℕ) (s : List ℕ) → All IsByte (b ∷ s) → HasStep (b ∷ s)
HasStep-cons b s bytes =
    let (r, e, bound) = utf8-within (b ∷ s) [] in
    step_of (b ∷ s) r (omega arith) bytes e bound (λ c. no_error (b ∷ s) (length s) r c e)
      (ErrorCode-cases r.error)
