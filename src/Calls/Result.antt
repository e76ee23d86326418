-- ===== src/Calls/Result.antt =====
-- The results of calls: what they say of the stack, how they are moved, and what their end removes.
use sol.Base.{ℕ, zero, suc, ◌+◌, Bool, true, false}
use sol.Calls.Stack.{LuaStack, pos, CallStatus, ok, yielded, runtime, remove}

pub record ProtectedFunctionResult : Type 0 where
  pub index : ℕ
  pub returncount : ℕ
  pub popcount : ℕ
  pub err : CallStatus

pub record UnsafeFunctionResult : Type 0 where
  pub index : ℕ
  pub returncount : ℕ

unfoldable pub abandon : ProtectedFunctionResult → ProtectedFunctionResult
abandon r = record { index = 0; returncount = 0; popcount = 0; err = runtime }

-- The move constructor: the new result, and what is left of the old one.
unfoldable pub move_construct :
    ProtectedFunctionResult → ProtectedFunctionResult × ProtectedFunctionResult
move_construct o = (
  record { index = o.index; returncount = o.returncount; popcount = o.popcount; err = o.err },
  abandon o,
)

-- The move assignment: the target, whose own values it forgets, and what is left of the source.
unfoldable pub move_assign :
    ProtectedFunctionResult
    → ProtectedFunctionResult
    → ProtectedFunctionResult × ProtectedFunctionResult
move_assign self o = (
  record self { index = o.index; returncount = o.returncount; popcount = o.popcount; err = o.err },
  abandon o,
)

unfoldable pub is_success : CallStatus → Bool
is_success ok = true
is_success yielded = true
is_success _ = false

unfoldable pub valid : ProtectedFunctionResult → Bool
valid r = is_success r.err

-- The position that `operator[]` gives a proxy for.
unfoldable pub element : ProtectedFunctionResult → ℕ → ℕ
element r index_offset = r.index + index_offset

unfoldable pub abandon_unsafe : UnsafeFunctionResult → UnsafeFunctionResult
abandon_unsafe r = record { index = 0; returncount = 0 }

unfoldable pub move_construct_unsafe :
    UnsafeFunctionResult → UnsafeFunctionResult × UnsafeFunctionResult
move_construct_unsafe o =
    (record { index = o.index; returncount = o.returncount }, abandon_unsafe o)

unfoldable pub move_assign_unsafe :
    UnsafeFunctionResult → UnsafeFunctionResult → UnsafeFunctionResult × UnsafeFunctionResult
move_assign_unsafe self o =
    (record self { index = o.index; returncount = o.returncount }, abandon_unsafe o)

module _ (lua : LuaStack) where
  open lua use {State}

  unfoldable pub destroy : ProtectedFunctionResult → State → State
  destroy r s = remove lua (pos r.index) r.popcount s

  unfoldable pub destroy_unsafe : UnsafeFunctionResult → State → State
  destroy_unsafe r s = lua.pop r.returncount s

  -- The loops of the pushers, with the count of what is left to push.
  unfoldable pub push_from : ℕ → ℕ → State → State
  push_from zero i s = s
  push_from (suc n) i s = push_from n (suc i) (lua.pushvalue i s)

  unfoldable pub push_result : ProtectedFunctionResult → State → State
  push_result r s = push_from r.popcount r.index s

  unfoldable pub push_unsafe_result : UnsafeFunctionResult → State → State
  push_unsafe_result r s = push_from r.returncount r.index s
