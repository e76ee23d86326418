-- ===== src/Coroutines/Resume.antt =====
-- `basic_coroutine`: its status, and `call` for all that it returns.
use sol.Base.{ℕ, ◌-◌, Bool, true, false, not, Option, none, some, List, length, get_elem?}
use sol.Calls.Stack.{LuaStack, CallStatus, yielded, push_all}
use sol.Calls.Result.{ProtectedFunctionResult, is_success}
use sol.Coroutines.Thread.{LuaThread}

-- The function, if it is valid, the error handler, if it is valid, and `stats`.
pub record Coroutine (lua : LuaStack) : Type 0 where
  pub function : Option lua.Value
  pub error_handler : Option lua.Value
  pub stats : CallStatus

unfoldable pub is_yielded : CallStatus → Bool
is_yielded yielded = true
is_yielded _ = false

module _ (lua : LuaStack) (thread : LuaThread lua) where
  open lua use {State, Value}

  unfoldable pub has_error : Coroutine lua → Bool
  has_error co = not (is_success co.stats)

  unfoldable pub is_runnable : Coroutine lua → Bool
  unfolding is_yielded
  is_runnable co = elim co.function [ none ↦ false | some _ ↦ is_yielded co.stats ]

  unfoldable pub luacall : ℕ → Coroutine lua → State → Coroutine lua × State
  luacall argcount co s =
      let (stats, s') = thread.resume argcount s in (record co { stats = stats }, s')

  -- The error, as a text, is given to the handler.
  unfoldable pub answer_error : Option Value → State → State
  answer_error none s = s
  answer_error (some h) s = elim (get_elem? (lua.stack s) (lua.gettop s - 1)) [
    | none ↦ s
    | some e ↦ thread.call_one 1 (lua.push (thread.text e) (lua.push h s))
  ]

  unfoldable pub error_result : ℕ → CallStatus → State → ProtectedFunctionResult
  error_result returncount stats s = record {
    index = lua.gettop s;
    returncount = 1;
    popcount = returncount;
    err = stats;
  }

  -- What `invoke` does behind the call, by whether the status is an error.
  unfoldable pub finish_call : Bool → Coroutine lua → State → ProtectedFunctionResult × State
  unfolding answer_error error_result
  finish_call true co s =
      let s' = answer_error co.error_handler s in (error_result (lua.gettop s) co.stats s', s')
  finish_call false co s =
      let returncount = lua.gettop s in
      (record { index = 1; returncount = returncount; popcount = returncount; err = co.stats }, s)

  -- `invoke` for all results.
  unfoldable pub invoke_coroutine :
      ℕ → Coroutine lua → State → Coroutine lua × ProtectedFunctionResult × State
  unfolding luacall has_error finish_call
  invoke_coroutine n co s =
      let (co', s1) = luacall n co s in
      let (r, s2) = finish_call (has_error co') co' s1 in (co', r, s2)

  -- `call`, of a coroutine with a function.
  unfoldable pub call_coroutine :
      Coroutine lua → Value → List Value → State → Coroutine lua × ProtectedFunctionResult × State
  unfolding invoke_coroutine
  call_coroutine co f args s = invoke_coroutine (length args) co (push_all lua args (lua.push f s))
