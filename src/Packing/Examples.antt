-- ===== src/Packing/Examples.antt =====
-- A chunk of code in a short buffer, and a value of ten bytes in two upvalues.
use sol.Base.{ℕ, suc, ◌+◌, ◌≡◌, refl, arith, List, [], ◌∷◌, ◌++◌, some, length, drop}
use sol.Packing.Chunks.{basechunkname, shown, replicate, make_chunk_name, make_chunk_name_lem}
use sol.Packing.Upvalues.{push_as_upvalues, get_as_upvalues, get_as_upvalues-push}

abbrev code : List ℕ
code = b'r' ∷ b'e' ∷ b't' ∷ b'u' ∷ b'r' ∷ b'n' ∷ b' ' ∷ b'1' ∷ []

abbrev text : List ℕ
text = shown code 10

make_chunk_name_lem_example :
    make_chunk_name code [] (replicate 10 b'#')
    ≡ some (basechunkname (text ++ 0 ∷ drop (suc (length text)) (replicate 10 b'#')))
make_chunk_name_lem_example = make_chunk_name_lem code [] (replicate 10 b'#') (omega arith)

shortened : text ≡ b'r' ∷ b'e' ∷ b't' ∷ b'u' ∷ b'r' ∷ b'n' ∷ b'.' ∷ b'.' ∷ b'.' ∷ []
shortened = refl

abbrev item : List ℕ
item = 1 ∷ 2 ∷ 3 ∷ 4 ∷ 5 ∷ 6 ∷ 7 ∷ 8 ∷ 9 ∷ 10 ∷ []

get_as_upvalues-push_example :
    let before = replicate 8 9 ∷ [] in
    let (stack, pushcount) = push_as_upvalues item before in
    get_as_upvalues (length item) (stack ++ []) (suc (length before))
    ≡ some (item, suc (length before) + pushcount)
get_as_upvalues-push_example = get_as_upvalues-push item (replicate 8 9 ∷ []) []
