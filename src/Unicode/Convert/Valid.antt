-- ===== src/Unicode/Convert/Valid.antt =====
-- The conversion of well-formed UTF-8.
use sol.Base.{
  ℕ, suc, ◌≤◌, ◌≡◌, refl, arith, List, [], ◌∷◌, ◌++◌, some, All, length, drop, length-append,
}
use mathlib.Core.List.{append_assoc}
use sol.Unicode.Scalars.{IsScalar, units}
use sol.Unicode.Utf8.{code_point_to_utf8}
use sol.Unicode.Utf8.RoundTrip.{utf8-round_trip}
use sol.Unicode.Convert.{CodeUnit, get_into, next_code_point, use_result}
use sol.Unicode.Convert.Steps.{IsStep, length-units}
use sol.Unicode.Convert.Transcoding.{Walks, Walks-nil, Walks-step, encode_all, get_into-walk}

-- The UTF-8 text of a sequence of code points.
abbrev pub utf8_text : List ℕ → List ℕ
utf8_text [] = []
utf8_text (cp ∷ cps) = units (code_point_to_utf8 cp) ++ utf8_text cps

drop-prefix : (us t : List ℕ) → drop (length us) (us ++ t) ≡ t
drop-prefix [] t = refl
drop-prefix (u ∷ us) t = drop-prefix us t

decodes :
    (cp room : ℕ) (us rest : List ℕ)
    → IsScalar cp
    → units (code_point_to_utf8 cp) ≡ us
    → next_code_point (us ++ rest) (suc room) ≡ some (cp, length us)
unfolding next_code_point
decodes cp room us rest v e =
    rw (← e, next_code_point, utf8-round_trip cp rest room v) (unfold use_result in refl)

step :
    (cp u : ℕ) (us text : List ℕ)
    → IsScalar cp
    → units (code_point_to_utf8 cp) ≡ u ∷ us
    → IsStep
        (length (u ∷ us ++ text))
        (next_code_point ((u ∷ us ++ text) ++ 0 ∷ []) (length (u ∷ us ++ text)))
        cp
        (length (u ∷ us))
step cp u us text v e = record {
  value = rw append_assoc (decodes cp (length (us ++ text)) (u ∷ us) (text ++ 0 ∷ []) v e);
  scalar = v;
  moves = omega arith;
  within = omega (arith, length-append us text);
}

Walks-units :
    (Ch : CodeUnit) (cp : ℕ) (us text cps : List ℕ)
    → IsScalar cp
    → units (code_point_to_utf8 cp) ≡ us
    → 1 ≤ length us
    → Walks Ch text cps
    → Walks Ch (us ++ text) (cp ∷ cps)
Walks-units Ch cp [] text cps v e h w = absurd (omega arith)
Walks-units Ch cp (u ∷ us) text cps v e h w =
    Walks-step Ch u (us ++ text) cp (length (u ∷ us)) cps (step cp u us text v e)
      (rw (drop-prefix us text) w)

Walks-utf8_text : (Ch : CodeUnit) (cps : List ℕ) → All IsScalar cps → Walks Ch (utf8_text cps) cps
Walks-utf8_text Ch [] v = Walks-nil Ch
Walks-utf8_text Ch (cp ∷ cps) v =
    Walks-units Ch cp (units (code_point_to_utf8 cp)) (utf8_text cps) cps v.0 refl (length-units cp)
      (Walks-utf8_text Ch cps v.1)

-- The UTF-8 text of any sequence of scalar values is converted to the units of those values.
pub get_into-utf8_text :
    (Ch : CodeUnit) (cps : List ℕ)
    → All IsScalar cps
    → get_into Ch (utf8_text cps) ≡ some (encode_all Ch cps)
get_into-utf8_text Ch cps v = get_into-walk Ch (utf8_text cps) cps (Walks-utf8_text Ch cps v)
