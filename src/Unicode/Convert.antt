-- ===== src/Unicode/Convert.antt =====
-- stack_get_unqualified.hpp: the loop that turns a UTF-8 text into UTF-16 or UTF-32 units, and its
-- two uses, to count the units and to copy them. A text is followed by a zero unit in memory, as
-- `lua_tolstring` promises. `none` is a read of memory that is not there, a read of an uninitialised
-- field, a write behind the end of the target, or the end of the fuel.
mod Steps
pub mod Transcoding
pub mod Valid
use sol.Base.{
  ℕ, zero, suc, ◌+◌, ◌-◌, ◌≤◌, List, [], ◌∷◌, ◌++◌, Option, none, some, leb, length, take, drop,
  if◌then◌else◌,
}
use sol.Unicode.Scalars.{ErrorCode, ok, DecodedResult, EncodedResult, units, replacement}
use sol.Unicode.Utf8.{utf8_to_code_point}
use sol.Unicode.Utf16.{code_point_to_utf16}
use sol.Unicode.Utf32.{code_point_to_utf32}

-- The template argument `Ch`.
pub data CodeUnit : Type 0 where
  char16 char32 : CodeUnit

unfoldable pub encode_as : CodeUnit → ℕ → EncodedResult
encode_as char32 cp = code_point_to_utf32 cp
encode_as char16 cp = code_point_to_utf16 cp

-- The code point and the distance that a round goes on by.
unfoldable pub use_result : ErrorCode → Option ℕ → Option ℕ → Option (ℕ × ℕ)
use_result ok (some cp) (some n) = some (cp, n)
use_result ok _ _ = none
use_result _ _ _ = some (replacement, 1)

unfoldable pub next_code_point : List ℕ → ℕ → Option (ℕ × ℕ)
next_code_point memory room = elim (utf8_to_code_point memory room) [
  | none ↦ none
  | some dr ↦ use_result dr.error dr.codepoint dr.next
]

-- `f` has a state of its own, as the functors have. `room` is `stre - strtarget`.
module _ {S : Type 0} (Ch : CodeUnit) (f : EncodedResult → S → Option S) where
  unfoldable pub convert : ℕ → List ℕ → ℕ → S → Option S
  convert zero memory room s = none
  convert (suc fuel) memory zero s = some s
  convert (suc fuel) memory (suc room) s = elim (next_code_point memory (suc room)) [
    | none ↦ none
    | some (cp, n) ↦ elim (f (encode_as Ch cp) s) [
      | none ↦ none
      | some s' ↦ convert fuel (drop n memory) (suc room - n) s'
    ]
  ]

unfoldable pub count_code_units : EncodedResult → ℕ → Option ℕ
count_code_units er needed_size = some (needed_size + er.code_units_size)

-- The target string with the units written so far in front of those still to be written.
pub record Target : Type 0 where
  pub written : List ℕ
  pub left : ℕ

-- The copy goes to the place behind what is written; it must fit.
unfoldable pub copy_code_units : EncodedResult → Target → Option Target
copy_code_units er t =
    if leb er.code_units_size t.left
    then some (record { written = t.written ++ units er; left = t.left - er.code_units_size })
    else none

abbrev zeros : ℕ → List ℕ
zeros zero = []
zeros (suc n) = 0 ∷ zeros n

-- What the string holds: the units written, and the zeros that it was built with.
abbrev pub contents : Target → List ℕ
contents t = t.written ++ zeros t.left

unfoldable pub get_into : CodeUnit → List ℕ → Option (List ℕ)
get_into Ch [] = some []
get_into Ch (b ∷ text) =
    let s = b ∷ text in
    let memory = s ++ 0 ∷ [] in
    let fuel = suc (length s) in
    elim (convert Ch count_code_units fuel memory (length s) 0) [
      | none ↦ none
      | some needed ↦
          elim (convert Ch copy_code_units fuel memory (length s)
            (record { written = []; left = needed })) [ none ↦ none | some t ↦ some (contents t) ]
    ]
