-- ===== src/Packing/Chunks.antt =====
-- `make_chunk_name`: the name by which messages speak of a chunk of code. Characters are numbers.
use mathlib.Core.List.{append_assoc, append-nil}
use sol.Base.{
  ℕ, zero, suc, ◌+◌, ◌-◌, ◌≤◌, ◌<◌, ◌≡◌, refl, sym, ap, ◌∙◌, arith, true, false, ltb, leb, leb→le,
  if◌then◌else◌, List, [], ◌∷◌, ◌++◌, Option, none, some, length, length-append, take, drop,
  Bool-cases, inl, inr,
}
use sol.Packing.Writing.{write, write-append, and_then}

-- What the pointer that is returned points to: the buffer, or the name that was given.
pub data ChunkName : Type 0 where
  basechunkname chunkname : List ℕ → ChunkName

-- The first loop: the code that is left, the index, and the buffer.
unfoldable pub copy_code : ℕ → List ℕ → ℕ → List ℕ → Option (List ℕ × ℕ × List ℕ)
copy_code n [] i buf = some ([], i, buf)
copy_code n (c ∷ code) i buf = elim (ltb i n) [
  | true ↦ elim (write i c buf) [ none ↦ none | some buf' ↦ copy_code n code (i + 1) buf' ]
  | false ↦ some (c ∷ code, i, buf)
]

unfoldable pub write_dots : ℕ → ℕ → List ℕ → Option (ℕ × List ℕ)
write_dots zero i buf = some (i, buf)
write_dots (suc c) i buf = elim (write i b'.' buf) [
  | none ↦ none
  | some buf' ↦ write_dots c (i + 1) buf'
]

-- The end of the name, and of the buffer that is used.
unfoldable pub close_name : ℕ → List ℕ → Option ChunkName
close_name i buf = and_then (write i 0 buf) λ buf'. some (basechunkname buf')

-- Three dots, if there is code left, and the end.
unfoldable pub name_end : List ℕ → ℕ → List ℕ → Option ChunkName
unfolding write_dots close_name
name_end [] i buf = close_name i buf
name_end (_ ∷ _) i buf = and_then (write_dots 3 i buf) λ (j, buf'). close_name j buf'

unfoldable pub make_chunk_name : List ℕ → List ℕ → List ℕ → Option ChunkName
unfolding copy_code name_end
make_chunk_name code [] buf =
    and_then (copy_code (length buf - 4) code 0 buf) λ (left, i, buf'). name_end left i buf'
make_chunk_name code (c ∷ name) buf = some (chunkname (c ∷ name))

abbrev pub replicate : ℕ → ℕ → List ℕ
replicate zero c = []
replicate (suc n) c = c ∷ replicate n c

-- The name of a piece of code in a buffer of a size: the code, or the beginning of it and three dots.
abbrev pub shown : List ℕ → ℕ → List ℕ
shown code size =
    if leb (length code) (size - 4) then code else take (size - 4) code ++ replicate 3 b'.'

copy_code_step :
    (n c : ℕ) (code : List ℕ) (i : ℕ) (done : List ℕ) (x : ℕ) (rest : List ℕ)
    → length done ≡ i
    → i < n
    → copy_code n (c ∷ code) i (done ++ x ∷ rest) ≡ copy_code n code (i + 1) (done ++ c ∷ rest)
unfolding copy_code
copy_code_step n c code i done x rest e l =
    let written : write i c (done ++ x ∷ rest) ≡ some (done ++ c ∷ rest) =
      rw (sym e) (write-append done rest x c) in
    ground (arith, written)

-- Characters that there is room for are written over as many that were there.
copy_code-append :
    (pre more done old rest : List ℕ) (n i : ℕ)
    → length done ≡ i
    → length old ≡ length pre
    → i + length pre ≤ n
    → copy_code n (pre ++ more) i (done ++ (old ++ rest))
      ≡ copy_code n more (i + length pre) (done ++ (pre ++ rest))
copy_code-append [] more done [] rest n i e o l = let here : i + 0 ≡ i = omega arith in rw here refl
copy_code-append [] more done (x ∷ old) rest n i e o l = absurd (omega arith)
copy_code-append (c ∷ pre) more done [] rest n i e o l = absurd (omega arith)
copy_code-append (c ∷ pre) more done (x ∷ old) rest n i e o l =
    let next : length (done ++ c ∷ []) ≡ i + 1 = omega (arith, length-append done (c ∷ [])) in
    let here : i + suc (length pre) ≡ i + 1 + length pre = omega arith in
    let later =
      copy_code-append pre more (done ++ c ∷ []) old rest n (i + 1) next (omega arith)
        (omega arith) in
    rw here (
      copy_code_step n c (pre ++ more) i done x (old ++ rest) e (omega arith)
      ∙ (rw (append_assoc done (c ∷ []) (old ++ rest), append_assoc done (c ∷ []) (pre ++ rest)) at
          later))

pub take-drop {ℓ} : {A : Type ℓ} (k : ℕ) (xs : List A) → take k xs ++ drop k xs ≡ xs
take-drop zero xs = refl
take-drop (suc k) [] = refl
take-drop (suc k) (x ∷ xs) = ap (λ (l : List _). x ∷ l) (take-drop k xs)

length-take {ℓ} : {A : Type ℓ} (k : ℕ) (xs : List A) → k ≤ length xs → length (take k xs) ≡ k
length-take zero xs h = refl
length-take (suc k) [] h = absurd (omega arith)
length-take (suc k) (x ∷ xs) h = ap suc (length-take k xs (omega arith))

drop_one : (k : ℕ) (buf : List ℕ) → k < length buf → (x : ℕ) × (drop k buf ≡ x ∷ drop (suc k) buf)
drop_one k [] h = absurd (omega arith)
drop_one zero (x ∷ buf) h = (x, refl)
drop_one (suc k) (y ∷ buf) h = drop_one k buf (omega arith)

-- The first loop on a whole buffer.
copy_code-whole :
    (pre more buf : List ℕ) (n : ℕ)
    → length pre ≤ n
    → n ≤ length buf
    → copy_code n (pre ++ more) 0 buf ≡ copy_code n more (length pre) (pre ++ drop (length pre) buf)
copy_code-whole pre more buf n h m =
    let whole : take (length pre) buf ++ drop (length pre) buf ≡ buf = take-drop (length pre) buf in
    let size = length-take (length pre) buf (omega arith) in
    let here : 0 + length pre ≡ length pre = omega arith in
    let copied =
      copy_code-append pre more [] (take (length pre) buf) (drop (length pre) buf) n 0 refl size
        (omega arith) in
    (rw (whole, here) at copied)

close_name_lem :
    (name buf : List ℕ)
    → length name < length buf
    → close_name (length name) (name ++ drop (length name) buf)
      ≡ some (basechunkname (name ++ 0 ∷ drop (suc (length name)) buf))
unfolding close_name
close_name_lem name buf h =
    let (x, e) = drop_one (length name) buf h in
    rw (e, write-append name (drop (suc (length name)) buf) x 0) refl

dots_step :
    (c : ℕ) (name rest : List ℕ) (x : ℕ)
    → write_dots (suc c) (length name) (name ++ x ∷ rest)
      ≡ write_dots c (length name + 1) (name ++ b'.' ∷ rest)
unfolding write_dots
dots_step c name rest x = ground (arith, write-append name rest x b'.')

write_dots_lem :
    (c : ℕ) (name buf : List ℕ)
    → length name + c < length buf
    → write_dots c (length name) (name ++ drop (length name) buf)
      ≡ some (
        length (name ++ replicate c b'.'),
        (name ++ replicate c b'.') ++ drop (length (name ++ replicate c b'.')) buf,
      )
unfolding write_dots
write_dots_lem zero name buf h = rw (append-nil name) refl
write_dots_lem (suc c) name buf h =
    let (x, e) = drop_one (length name) buf (omega arith) in
    let longer : length (name ++ b'.' ∷ []) ≡ length name + 1 =
      omega (arith, length-append name (b'.' ∷ [])) in
    let longer' : length (name ++ b'.' ∷ []) ≡ suc (length name) = omega (arith, longer) in
    let later = write_dots_lem c (name ++ b'.' ∷ []) buf (omega (arith, longer)) in
    let first : write_dots (suc c) (length name) (name ++ drop (length name) buf)
        ≡ write_dots c (length name + 1) (name ++ b'.' ∷ drop (suc (length name)) buf) =
      rw e (dots_step c name (drop (suc (length name)) buf) x) in
    cc (
      first,
      later,
      longer,
      longer',
      append_assoc name (b'.' ∷ []) (drop (length (name ++ b'.' ∷ [])) buf),
      append_assoc name (b'.' ∷ []) (replicate c b'.'),
    )

copy_code-stops :
    (n c : ℕ) (code buf : List ℕ) → copy_code n (c ∷ code) n buf ≡ some (c ∷ code, n, buf)
unfolding copy_code
copy_code-stops n c code buf = ground arith

copy_code-long :
    (code buf : List ℕ) (n : ℕ)
    → n < length code
    → n ≤ length buf
    → copy_code n code 0 buf ≡ some (drop n code, n, take n code ++ drop n buf)
copy_code-long code buf n more h =
    let (c, e) = drop_one n code more in
    let size : length (take n code) ≡ n = length-take n code (omega arith) in
    let copied = copy_code-whole (take n code) (drop n code) buf n (omega (arith, size)) h in
    cc (
      (rw (take-drop n code, size) at copied),
      e,
      copy_code-stops n c (drop (suc n) code) (take n code ++ drop n buf),
    )

long_name :
    (code buf : List ℕ) (n : ℕ)
    → n < length code
    → n + 3 < length buf
    → and_then (copy_code n code 0 buf) (λ (left, i, buf'). name_end left i buf') ≡ (
        let text = take n code ++ replicate 3 b'.' in
        some (basechunkname (text ++ 0 ∷ drop (suc (length text)) buf)))
unfolding name_end
long_name code buf n more h =
    let (c, e) = drop_one n code more in
    let size : length (take n code) ≡ n = length-take n code (omega arith) in
    let text = take n code ++ replicate 3 b'.' in
    let all : length text ≡ n + 3 =
      omega (arith, size, length-append (take n code) (replicate 3 b'.')) in
    let dots = write_dots_lem 3 (take n code) buf (omega (arith, size)) in
    rw (copy_code-long code buf n more (omega arith), e, (rw size at dots))
      (close_name_lem text buf (omega (arith, all)))

-- A chunk that is given a name has this name. Else its name is written to the buffer, if that has room
-- for four characters: the code, or, if that does not leave four, as much of it as leaves four and three
-- dots; then a zero, and what is behind it in the buffer is left as it was.
pub make_chunk_name_lem :
    (code name buf : List ℕ)
    → 4 ≤ length buf
    → make_chunk_name code name buf ≡ elim name [
      | [] ↦
          let text = shown code (length buf) in
          some (basechunkname (text ++ 0 ∷ drop (suc (length text)) buf))
      | c ∷ cs ↦ some (chunkname (c ∷ cs))
    ]
unfolding make_chunk_name
make_chunk_name_lem code (c ∷ cs) buf h = refl
make_chunk_name_lem code [] buf h = elim (Bool-cases (leb (length code) (length buf - 4))) [
  | inl fits ↦
      let room = leb→le (length code) (length buf - 4) fits in
      let copied = copy_code-whole code [] buf (length buf - 4) room (omega arith) in
      let all_copied : copy_code (length buf - 4) code 0 buf
          ≡ some ([], length code, code ++ drop (length code) buf) =
        (rw (append-nil code) at copied) in
      rw (all_copied, fits) (close_name_lem code buf (omega (arith, room)))
  | inr long ↦
      let more : length buf - 4 < length code = ground arith in
      rw long (long_name code buf (length buf - 4) more (omega arith))
]
