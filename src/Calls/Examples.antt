-- ===== src/Calls/Examples.antt =====
-- Calls on a stack of numbers.
use sol.Base.{ℕ, ◌≡◌, refl, ap, arith, true, false, some, List, [], ◌∷◌, ◌++◌, length}
use sol.Calls.Stack.{ok}
use sol.Calls.Result.{
  destroy, move_construct, push_result, ProtectedFunctionResult, valid, is_success,
}
use sol.Calls.Invoke.{Handler, call}
use sol.Calls.Iterator.{visit, begin_result, end_result}
use sol.Calls.Scripts.{Loader, load, move_load, destroy_load, do_string}
use sol.Calls.Loading.{IsLoader, Leaves, Ends, do_string-Leaves}
use sol.Calls.Balance.{Returns, Called, call-Returns, call-restores}
use sol.Calls.Pushing.{read, result-elements}
use sol.Calls.Small.{numbers, numbers-IsLuaStack}

abbrev caller : List ℕ
caller = 4 ∷ 5 ∷ []

abbrev with_handler : Handler numbers
with_handler = record { valid = true; is_stack = false; value = 8; stack_index = 0 }

call-Returns_example :
    Called numbers with_handler 7 [] caller
      (call numbers 7 with_handler [] caller).0
      (call numbers 7 with_handler [] caller).1
call-Returns_example = call-Returns numbers numbers-IsLuaStack 7 with_handler [] caller

call-restores_example :
    let (r, s') = call numbers 7 with_handler (1 ∷ 2 ∷ []) caller in
    let (r', moved) = move_construct r in destroy numbers r' (destroy numbers moved s') ≡ caller
call-restores_example = call-restores numbers numbers-IsLuaStack 7 with_handler (1 ∷ 2 ∷ []) caller

abbrev two : ProtectedFunctionResult
two = record { index = 3; returncount = 2; popcount = 2; err = ok }

abbrev pair : List ℕ
pair = 1 ∷ 2 ∷ []

two_valid : valid two ≡ false → length pair ≡ 1
unfolding valid is_success
two_valid e = cc

abbrev after_call : List ℕ
after_call = 4 ∷ 5 ∷ 1 ∷ 2 ∷ []

abbrev two_results : Returns numbers caller two after_call
two_results = record {
  returned = pair;
  left = refl;
  index_lem = refl;
  returncount_lem = refl;
  popcount_lem = refl;
  error_value = two_valid;
}

result-elements_example :
    (ps : List ℕ) × (visit 3 (begin_result two) (end_result two) ≡ some ps)
    × (read after_call ps ≡ some (1 ∷ 2 ∷ []))
    × (push_result numbers two after_call ≡ 4 ∷ 5 ∷ 1 ∷ 2 ∷ 1 ∷ 2 ∷ [])
result-elements_example =
    result-elements numbers numbers-IsLuaStack caller after_call _ two_results (ground arith)

abbrev replace_third : List ℕ → List ℕ
replace_third [] = []
replace_third (x ∷ []) = x ∷ []
replace_third (x ∷ y ∷ []) = x ∷ y ∷ []
replace_third (x ∷ y ∷ z ∷ []) = z ∷ y ∷ []
replace_third (x ∷ y ∷ z ∷ w ∷ rest) = x ∷ replace_third (y ∷ z ∷ w ∷ rest)

replace_third_lem :
    (xs : List ℕ) (x y z : ℕ) → replace_third (xs ++ x ∷ y ∷ z ∷ []) ≡ xs ++ z ∷ y ∷ []
replace_third_lem [] x y z = refl
replace_third_lem (a ∷ []) x y z = refl
replace_third_lem (a ∷ b ∷ []) x y z = refl
replace_third_lem (a ∷ b ∷ c ∷ []) x y z = refl
replace_third_lem (a ∷ b ∷ c ∷ d ∷ xs) x y z =
    ap (λ l. a ∷ l) (replace_third_lem (b ∷ c ∷ d ∷ xs) x y z)

-- Code that compiles to the function 7.
abbrev seven : Loader numbers
seven = record { loadbufferx = λ s. (ok, s ++ 7 ∷ []); replace = replace_third }

seven-IsLoader : IsLoader numbers seven
seven-IsLoader = record {
  load_lem = λ s. (7, refl);
  replace_lem = λ xs x y z s e. rw e (replace_third_lem xs x y z);
}

do_string-Leaves_example :
    let (r, s') = do_string numbers seven with_handler caller in
    let (l, s1) = load numbers seven caller in
    let (l', moved) = move_load l in
    Leaves numbers numbers-IsLuaStack seven seven-IsLoader caller r s'
    × Ends numbers numbers-IsLuaStack seven seven-IsLoader with_handler caller r s'
    × (destroy_load numbers seven l' (destroy_load numbers seven moved s1) ≡ caller)
do_string-Leaves_example =
    do_string-Leaves numbers numbers-IsLuaStack seven seven-IsLoader with_handler caller
