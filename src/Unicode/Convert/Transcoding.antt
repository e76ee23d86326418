-- ===== src/Unicode/Convert/Transcoding.antt =====
-- What `get_into` returns: for every text, the units of a sequence of scalar values; for a
-- well-formed text, those of its code points.
use sol.Base.{
  Option-cases, inl, inr, ℕ, zero, suc, ◌+◌, ◌-◌, ◌<◌, ◌≤◌, ◌≡◌, refl, arith, List, [], ◌∷◌, ◌++◌,
  Option, none, some, All, length, drop, length-append, length-drop, ap, ◌∙◌, sym,
}
use mathlib.Core.List.{append_assoc, append-nil}
use sol.Unicode.Scalars.{IsByte, IsScalar, EncodedResult, units, replacement}
use sol.Unicode.Utf16.{code_point_to_utf16}
use sol.Unicode.Utf32.{code_point_to_utf32}
use sol.Unicode.Convert.{
  CodeUnit, char16, char32, encode_as, convert, count_code_units, Target, copy_code_units, get_into,
  next_code_point,
}
use sol.Unicode.Convert.Steps.{IsStep, StartsWith, Form, HasStep-cons}
use sol.Unicode.Utf8.{code_point_to_utf8}
use mathlib.Core.Path.{subst}

-- The calls of the functor, one for each code point.
module _ {S : Type 0} (Ch : CodeUnit) (f : EncodedResult → S → Option S) where
  abbrev pub call_all : List ℕ → S → Option S
  call_all [] s = some s
  call_all (cp ∷ cps) s = elim (f (encode_as Ch cp) s) [ none ↦ none | some s' ↦ call_all cps s' ]

-- The loop over `text` calls the functor with the code points `cps`, whatever the functor is.
abbrev pub Walks : CodeUnit → List ℕ → List ℕ → Type 1
Walks Ch text cps =
    (S : Type 0) (f : EncodedResult → S → Option S) (fuel : ℕ) (s : S)
    → length text < fuel
    → convert Ch f fuel (text ++ 0 ∷ []) (length text) s ≡ call_all Ch f cps s

drop-append : (n : ℕ) (s t : List ℕ) → n ≤ length s → drop n (s ++ t) ≡ drop n s ++ t
drop-append zero s t h = refl
drop-append (suc n) [] t h = absurd (omega arith)
drop-append (suc n) (x ∷ s) t h = drop-append n s t (omega arith)

pub Walks-nil : (Ch : CodeUnit) → Walks Ch [] []
unfolding convert
Walks-nil Ch S f zero s h = absurd (omega arith)
Walks-nil Ch S f (suc fuel) s h = refl

-- The rest of the loop, after a round that goes on by `n`.
rest_of_loop :
    (Ch : CodeUnit) (text : List ℕ) (n : ℕ) (cps : List ℕ)
    → n ≤ length text
    → Walks Ch (drop n text) cps
    → (S : Type 0) (f : EncodedResult → S → Option S) (fuel : ℕ) (s : S) → length text - n < fuel
    → convert Ch f fuel (drop n (text ++ 0 ∷ [])) (length text - n) s ≡ call_all Ch f cps s
rest_of_loop Ch text n cps h w S f fuel s enough =
    rw (drop-append n text (0 ∷ []) h, ← length-drop n text)
      (w S f fuel s (omega (arith, length-drop n text)))

pub Walks-step :
    (Ch : CodeUnit) (b : ℕ) (text : List ℕ) (cp n : ℕ) (cps : List ℕ)
    → IsStep (length (b ∷ text)) (next_code_point (b ∷ text ++ 0 ∷ []) (length (b ∷ text))) cp n
    → Walks Ch (drop n (b ∷ text)) cps
    → Walks Ch (b ∷ text) (cp ∷ cps)
Walks-step Ch b text cp n cps st w S f zero s h = absurd (omega arith)
Walks-step Ch b text cp n cps st w S f (suc fuel) s h =
    elim (Option-cases (f (encode_as Ch cp) s)) [
      | inl e ↦ unfold convert in rw (st.value, convert, call_all, e)
      | inr (s', e) ↦
          unfold convert in
          rw (st.value, convert, call_all, e)
            (rest_of_loop Ch (b ∷ text) n cps st.within w S f fuel s' (omega (arith, st.moves)))
    ]

All-drop : (n : ℕ) (s : List ℕ) → All IsByte s → All IsByte (drop n s)
All-drop zero s h = h
All-drop (suc n) [] h = tt
All-drop (suc n) (x ∷ s) h = All-drop n s h.1

-- The code points of a text: the scalar value whose UTF-8 form it starts with, or, where it starts with
-- none, the replacement character for one byte; and then those of the rest.
pub data Reads : List ℕ → List ℕ → Type 0 where
  at_end : Reads [] []
  well_formed :
      (cp : ℕ) (text cps : List ℕ)
      → IsScalar cp
      → Reads text cps
      → Reads (units (code_point_to_utf8 cp) ++ text) (cp ∷ cps)
  replaced :
      (b : ℕ) (text cps : List ℕ)
      → ((c : ℕ) → IsScalar c → ¬ StartsWith (b ∷ text) c)
      → Reads text cps
      → Reads (b ∷ text) (replacement ∷ cps)

Reads-step :
    (b : ℕ) (text : List ℕ) (cp n : ℕ) (cps : List ℕ)
    → IsScalar cp
    → Form (b ∷ text) cp n
    → Reads (drop n (b ∷ text)) cps
    → Reads (b ∷ text) (cp ∷ cps)
Reads-step b text cp n cps v (inl starts) r =
    subst (λ (l : List ℕ). Reads l (cp ∷ cps)) (sym starts)
      (well_formed cp (drop n (b ∷ text)) cps v r)
Reads-step b text cp n cps v (inr (same, one, none_there)) r =
    let rest : Reads text cps = subst (λ (k : ℕ). Reads (drop k (b ∷ text)) cps) one r in
    subst (λ (c : ℕ). Reads (b ∷ text) (c ∷ cps)) (sym same) (replaced b text cps none_there rest)

walk :
    (Ch : CodeUnit) (bound : ℕ) (text : List ℕ)
    → length text ≤ bound
    → All IsByte text
    → (cps : List ℕ) × All IsScalar cps × Reads text cps × Walks Ch text cps
walk Ch bound [] h bytes = ([], tt, at_end, Walks-nil Ch)
walk Ch zero (b ∷ text) h bytes = absurd (omega arith)
walk Ch (suc bound) (b ∷ text) h bytes =
    let (cp, n, st, form) = HasStep-cons b text bytes in
    let (cps, scalars, reads, w) =
      walk Ch bound (drop n (b ∷ text)) (omega (arith, st.moves, length-drop n (b ∷ text)))
        (All-drop n (b ∷ text) bytes) in
    (
      cp ∷ cps,
      (st.scalar, scalars),
      Reads-step b text cp n cps st.scalar form reads,
      Walks-step Ch b text cp n cps st w,
    )

-- The units of a sequence of code points.
abbrev pub encode_all : CodeUnit → List ℕ → List ℕ
encode_all Ch [] = []
encode_all Ch (cp ∷ cps) = units (encode_as Ch cp) ++ encode_all Ch cps

length-units :
    (Ch : CodeUnit) (cp : ℕ) → length (units (encode_as Ch cp)) ≡ (encode_as Ch cp).code_units_size
unfolding encode_as code_point_to_utf16 code_point_to_utf32
length-units char16 cp = ground arith
length-units char32 cp = refl

call_all-count :
    (Ch : CodeUnit) (cps : List ℕ) (n : ℕ)
    → call_all Ch count_code_units cps n ≡ some (n + length (encode_all Ch cps))
unfolding count_code_units
call_all-count Ch [] n = ground arith
call_all-count Ch (cp ∷ cps) n =
    call_all-count Ch cps (n + (encode_as Ch cp).code_units_size)
    ∙ ap some (
        omega
          (arith, length-units Ch cp, length-append (units (encode_as Ch cp)) (encode_all Ch cps)))

copy-fits :
    (er : EncodedResult) (done : List ℕ) (left : ℕ)
    → er.code_units_size ≤ left
    → copy_code_units er (record { written = done; left = left })
      ≡ some (record { written = done ++ units er; left = left - er.code_units_size })
unfolding copy_code_units
copy-fits er done left h = ground arith

nil_of_length : (us : List ℕ) → length us ≡ 0 → us ≡ []
nil_of_length [] h = refl
nil_of_length (u ∷ us) h = absurd (omega arith)

call_all-copy :
    (Ch : CodeUnit) (cps done : List ℕ) (left : ℕ)
    → length (encode_all Ch cps) ≡ left
    → call_all Ch copy_code_units cps (record { written = done; left = left })
      ≡ some (record { written = done ++ encode_all Ch cps; left = 0 })
call_all-copy Ch [] done left h = rw append-nil (ground arith)
call_all-copy Ch (cp ∷ cps) done left h =
    let us = units (encode_as Ch cp) in
    let size = (encode_as Ch cp).code_units_size in
    let total = length-append us (encode_all Ch cps) in
    let width = length-units Ch cp in
    let fits : size ≤ left = omega (arith, total, width) in
    rw (call_all, copy-fits (encode_as Ch cp) done left fits, ← append_assoc)
      (call_all-copy Ch cps (done ++ us) (left - size) (omega (arith, total, width)))

pub get_into-walk :
    (Ch : CodeUnit) (text cps : List ℕ)
    → Walks Ch text cps
    → get_into Ch text ≡ some (encode_all Ch cps)
unfolding get_into
get_into-walk Ch [] cps w =
    let loop : some 0 ≡ some (0 + length (encode_all Ch cps)) =
      sym (Walks-nil Ch ℕ count_code_units 1 0 (omega arith))
      ∙ w ℕ count_code_units 1 0 (omega arith)
      ∙ call_all-count Ch cps 0 in
    rw (nil_of_length (encode_all Ch cps) (ground arith))
get_into-walk Ch (b ∷ text) cps w =
    let s = b ∷ text in
    let count = w ℕ count_code_units (suc (length s)) 0 (omega arith) ∙ call_all-count Ch cps 0 in
    let needed = 0 + length (encode_all Ch cps) in
    let copy =
      w Target copy_code_units (suc (length s)) (record { written = []; left = needed })
        (omega arith)
      ∙ call_all-copy Ch cps [] needed (omega arith) in
    rw (get_into, count, copy) (ap some (append-nil (encode_all Ch cps)))

-- Whatever the bytes of the text are, the conversion ends, reads and writes nothing out of bounds, and
-- returns the units of the text's code points, and nothing behind them. These are scalar values: those
-- whose UTF-8 forms are in the text, in order, and the replacement character for each byte where the text
-- does not go on with such a form.
pub get_into-scalars :
    (Ch : CodeUnit) (text : List ℕ)
    → All IsByte text
    → (cps : List ℕ) × All IsScalar cps
      × Reads text cps
      × (get_into Ch text ≡ some (encode_all Ch cps))
get_into-scalars Ch text bytes =
    let (cps, scalars, reads, w) = walk Ch (length text) text (omega arith) bytes in
    (cps, scalars, reads, get_into-walk Ch text cps w)
