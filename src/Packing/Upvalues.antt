-- ===== src/Packing/Upvalues.antt =====
-- `push_as_upvalues` and `get_as_upvalues`: a value is copied byte by byte into pointers, each of which is
-- an upvalue. A pointer has 8 bytes.
use mathlib.Core.List.{append_assoc}
use sol.Base.{
  ℕ, zero, suc, ◌+◌, ◌-◌, ◌*◌, ◌/◌, ◌≤◌, ◌<◌, ◌≡◌, refl, sym, ap, ◌∙◌, arith, true, false, ltb,
  List, [], ◌∷◌, ◌++◌, Option, none, some, length, length-append, length-drop, take, drop,
}
use sol.Packing.Writing.{write, write-append, and_then}
use sol.Packing.Chunks.{replicate, take-drop}

abbrev pub voidsize : ℕ
voidsize = 8

-- The bytes of a `void*`.
abbrev pub Pointer : Type 0
Pointer = List ℕ

abbrev pub nullptr : Pointer
nullptr = replicate voidsize 0

unfoldable pub data_t_count : ℕ → ℕ
data_t_count itemsize = (itemsize + (voidsize - 1)) / voidsize

-- An array of pointers, out of the bytes of it.
unfoldable pub pointers : ℕ → List ℕ → List Pointer
pointers zero bytes = []
pointers (suc n) bytes = take voidsize bytes ∷ pointers n (drop voidsize bytes)

-- `std::memcpy` into an array of null pointers.
unfoldable pub copied : List ℕ → List Pointer
unfolding pointers data_t_count
copied item =
    let count = data_t_count (length item) in
    pointers count (item ++ replicate (voidsize * count - length item) 0)

-- What is pushed, upwards on the stack, and how many they are.
unfoldable pub push_as_upvalues : List ℕ → List Pointer → List Pointer × ℕ
unfolding copied
push_as_upvalues item stack = (stack ++ copied item, length (copied item))

-- The upvalue at an index, from 1 on. Where there is none, the pointer is null.
unfoldable pub upvalue : List Pointer → ℕ → Pointer
upvalue [] i = nullptr
upvalue (p ∷ ps) zero = nullptr
upvalue (p ∷ ps) (suc zero) = p
upvalue (p ∷ ps) (suc (suc i)) = upvalue ps (suc i)

-- The loop of `get_as_upvalues`, with fuel, and the index behind the upvalues that were read.
unfoldable pub get_loop :
    ℕ → ℕ → List Pointer → ℕ → ℕ → List Pointer → ℕ → Option (List Pointer × ℕ)
unfolding upvalue
get_loop zero size ups i d voiddata index = none
get_loop (suc fuel) size ups i d voiddata index = elim (ltb d size) [
  | true ↦ elim (write i (upvalue ups index) voiddata) [
    | none ↦ none
    | some voiddata' ↦ get_loop fuel size ups (i + 1) (d + voidsize) voiddata' (index + 1)
  ]
  | false ↦ some (voiddata, index)
]

-- The bytes of an array of pointers.
unfoldable pub flatten : List Pointer → List ℕ
flatten [] = []
flatten (p ∷ ps) = p ++ flatten ps

abbrev nulls : ℕ → List Pointer
nulls zero = []
nulls (suc n) = nullptr ∷ nulls n

-- The bytes of the value that is read, and the index behind it.
unfoldable pub get_as_upvalues : ℕ → List Pointer → ℕ → Option (List ℕ × ℕ)
unfolding get_loop data_t_count flatten
get_as_upvalues size ups index =
    and_then (get_loop (size + 1) size ups 0 0 (nulls (data_t_count size)) index)
      λ (voiddata, index'). some (take size (flatten voiddata), index')

upvalue-append :
    (before : List Pointer) (p : Pointer) (rest : List Pointer)
    → upvalue (before ++ p ∷ rest) (suc (length before)) ≡ p
unfolding upvalue
upvalue-append [] p rest = refl
upvalue-append (q ∷ before) p rest = upvalue-append before p rest

get_step :
    (before : List Pointer) (p : Pointer) (rest done ns : List Pointer) (fuel size i d index : ℕ)
    → i ≡ length done
    → d < size
    → index ≡ suc (length before)
    → get_loop (suc fuel) size (before ++ p ∷ rest) i d (done ++ nullptr ∷ ns) index
      ≡ get_loop fuel size (before ++ p ∷ rest) (i + 1) (d + voidsize) (done ++ p ∷ ns) (index + 1)
unfolding get_loop
get_step before p rest done ns fuel size i d index e l q =
    let got : upvalue (before ++ p ∷ rest) index ≡ p = rw q (upvalue-append before p rest) in
    let written : write i p (done ++ nullptr ∷ ns) ≡ some (done ++ p ∷ ns) =
      rw e (write-append done ns nullptr p) in
    ground (arith, got, written)

get_stop :
    (ups done : List Pointer) (fuel size i d index : ℕ)
    → size ≤ d
    → 0 < fuel
    → get_loop fuel size ups i d done index ≡ some (done, index)
unfolding get_loop
get_stop ups done zero size i d index l f = absurd (omega arith)
get_stop ups done (suc fuel) size i d index l f = ground arith

-- The loop reads as many upvalues as the array has places for.
get_loop_lem :
    (ps before rest done : List Pointer) (fuel size i d index : ℕ)
    → i ≡ length done
    → d ≡ voidsize * i
    → index ≡ suc (length before)
    → size ≤ voidsize * (i + length ps)
    → voidsize * (i + length ps) < size + voidsize
    → length ps < fuel
    → get_loop fuel size (before ++ (ps ++ rest)) i d (done ++ nulls (length ps)) index
      ≡ some (done ++ ps, index + length ps)
get_loop_lem [] before rest done fuel size i d index e m q l u f =
    let same : index + 0 ≡ index = omega arith in
    rw same (get_stop (before ++ rest) (done ++ []) fuel size i d index (omega arith) (omega arith))
get_loop_lem (p ∷ ps) before rest done zero size i d index e m q l u f = absurd (omega arith)
get_loop_lem (p ∷ ps) before rest done (suc fuel) size i d index e m q l u f =
    let longer : i + 1 ≡ length (done ++ p ∷ []) = omega (arith, length-append done (p ∷ [])) in
    let further : index + 1 ≡ suc (length (before ++ p ∷ [])) =
      omega (arith, length-append before (p ∷ [])) in
    let step =
      get_step before p (ps ++ rest) done (nulls (length ps)) fuel size i d index e (omega arith)
        q in
    let later =
      get_loop_lem ps (before ++ p ∷ []) rest (done ++ p ∷ []) fuel size (i + 1) (d + voidsize)
        (index + 1) longer (omega arith) further (omega arith) (omega arith) (omega arith) in
    let count : index + 1 + length ps ≡ index + suc (length ps) = omega arith in
    step
    ∙ (rw
        (
          append_assoc before (p ∷ []) (ps ++ rest),
          append_assoc done (p ∷ []) (nulls (length ps)),
          append_assoc done (p ∷ []) ps,
          count,
        )
        at later)

flatten-pointers :
    (n : ℕ) (bytes : List ℕ) → length bytes ≡ voidsize * n → flatten (pointers n bytes) ≡ bytes
unfolding flatten pointers
flatten-pointers zero [] h = refl
flatten-pointers zero (b ∷ bytes) h = absurd (omega arith)
flatten-pointers (suc n) bytes h =
    let rest : length (drop voidsize bytes) ≡ voidsize * n =
      omega (arith, length-drop voidsize bytes) in
    rw (flatten-pointers n (drop voidsize bytes) rest) (take-drop voidsize bytes)

length-pointers : (n : ℕ) (bytes : List ℕ) → length (pointers n bytes) ≡ n
unfolding pointers
length-pointers zero bytes = refl
length-pointers (suc n) bytes = ap suc (length-pointers n (drop voidsize bytes))

length-replicate : (n c : ℕ) → length (replicate n c) ≡ n
length-replicate zero c = refl
length-replicate (suc n) c = ap suc (length-replicate n c)

take-append {ℓ} : {A : Type ℓ} (xs ys : List A) → take (length xs) (xs ++ ys) ≡ xs
take-append [] ys = refl
take-append (x ∷ xs) ys = ap (λ (l : List _). x ∷ l) (take-append xs ys)

data_t_count_bounds :
    (n : ℕ) → (n ≤ voidsize * data_t_count n) × (voidsize * data_t_count n < n + voidsize)
unfolding data_t_count
data_t_count_bounds n = (omega arith, omega arith)

-- What is copied has as many pointers as it takes, and begins with the bytes of the value.
copied_lem :
    (item : List ℕ)
    → (length (copied item) ≡ data_t_count (length item))
      × (take (length item) (flatten (copied item)) ≡ item)
unfolding copied
copied_lem item =
    let count = data_t_count (length item) in
    let pad = replicate (voidsize * count - length item) 0 in
    let (low, high) = data_t_count_bounds (length item) in
    let size : length (item ++ pad) ≡ voidsize * count =
      omega
        (arith, length-append item pad, length-replicate (voidsize * count - length item) 0, low) in
    (
      length-pointers count (item ++ pad),
      rw (flatten-pointers count (item ++ pad) size) (take-append item pad),
    )

-- A value that is pushed as upvalues, with any upvalues before and behind it, is read back byte by byte
-- from the index of its first upvalue, and the index that is returned is the one behind its last: as
-- many further on as upvalues were pushed.
pub get_as_upvalues-push :
    (item : List ℕ) (before rest : List Pointer)
    → let (stack, pushcount) = push_as_upvalues item before in
      get_as_upvalues (length item) (stack ++ rest) (suc (length before))
      ≡ some (item, suc (length before) + pushcount)
unfolding push_as_upvalues get_as_upvalues
get_as_upvalues-push item before rest =
    let (count, whole) = copied_lem item in
    let (low, high) = data_t_count_bounds (length item) in
    let loop =
      get_loop_lem (copied item) before rest [] (length item + 1) (length item) 0 0
        (suc (length before)) refl (omega arith) refl (omega (arith, count, low))
        (omega (arith, count, high)) (omega (arith, count, high)) in
    let read = (rw (count, sym (append_assoc before (copied item) rest)) at loop) in
    ground (arith, read, whole, count)
