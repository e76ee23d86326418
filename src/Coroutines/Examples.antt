-- ===== src/Coroutines/Examples.antt =====
-- A thread of numbers: a coroutine fails when it is given nothing, and else yields what it is given.
use sol.Base.{ℕ, zero, suc, ◌≡◌, refl, true, false, some, List, [], ◌∷◌, ◌++◌, drop}
use sol.Calls.Stack.{CallStatus, yielded, runtime, push_all}
use sol.Calls.Small.{numbers, below_call}
use sol.Coroutines.Thread.{LuaThread}
use sol.Coroutines.Resume.{Coroutine, call_coroutine, is_runnable}

abbrev yield_all : ℕ → List ℕ → CallStatus × List ℕ
yield_all zero s = (runtime, s ++ 99 ∷ [])
yield_all (suc n) s = (yielded, drop 1 s)

abbrev echo : LuaThread numbers
echo = record { resume = yield_all; call_one = λ n s. below_call n s ++ 55 ∷ []; text = λ v. v }

abbrev fresh : Coroutine numbers
fresh = record { function = some 3; error_handler = some 8; stats = yielded }

-- A coroutine that has yielded can be resumed, and one that has failed cannot.
yielded_again : is_runnable numbers echo (call_coroutine numbers echo fresh 3 (6 ∷ []) []).0 ≡ true
unfolding is_runnable call_coroutine push_all
yielded_again = refl

failed_for_good : is_runnable numbers echo (call_coroutine numbers echo fresh 3 [] []).0 ≡ false
unfolding is_runnable call_coroutine push_all
failed_for_good = refl
