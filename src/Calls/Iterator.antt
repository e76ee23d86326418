-- ===== src/Calls/Iterator.antt =====
-- Iterators over a part of the stack, over the results of a call, and over variadic arguments.
use sol.Base.{ℕ, zero, suc, ◌+◌, ◌-◌, Bool, ◌==◌, if◌then◌else◌, Option, none, some, List, [], ◌∷◌}
use sol.Calls.Stack.{LuaStack}
use sol.Calls.Result.{ProtectedFunctionResult, push_from}

-- `(std::numeric_limits<int>::max)()` for an `int` of 32 bits.
abbrev pub max_int : ℕ
max_int = 2147483647

pub record StackIterator : Type 0 where
  pub index : ℕ
  pub stacktop : ℕ

unfoldable pub default_iterator : StackIterator
default_iterator = record { index = max_int; stacktop = max_int }

unfoldable pub increment : StackIterator → StackIterator
increment it = record it { index = suc it.index }

unfoldable pub equal : StackIterator → StackIterator → Bool
equal l r =
    if l.stacktop == max_int
    then r.index == r.stacktop
    else if r.stacktop == max_int
    then l.index == l.stacktop
    else l.index == r.index

unfoldable pub begin_result : ProtectedFunctionResult → StackIterator
begin_result r = record { index = r.index; stacktop = r.index + r.returncount }

unfoldable pub end_result : ProtectedFunctionResult → StackIterator
end_result r = record { index = r.index + r.returncount; stacktop = r.index + r.returncount }

-- The positions that `for (; it != end; ++it)` visits, with fuel.
unfoldable pub visit : ℕ → StackIterator → StackIterator → Option (List ℕ)
visit zero it end = none
visit (suc fuel) it end =
    let rest = visit fuel (increment it) end in
    if equal it end then some [] else (elim rest [ none ↦ none | some is ↦ some (it.index ∷ is) ])

pub record VariadicArgs : Type 0 where
  pub index : ℕ
  pub stacktop : ℕ

unfoldable pub begin_args : VariadicArgs → StackIterator
begin_args a = record { index = a.index; stacktop = a.stacktop + 1 }

unfoldable pub end_args : VariadicArgs → StackIterator
end_args a = record { index = a.stacktop + 1; stacktop = a.stacktop + 1 }

unfoldable pub leftover_count : VariadicArgs → ℕ
leftover_count a = a.stacktop + 1 - a.index

-- The constructor from an index that counts from the bottom, which `lua_absindex` keeps.
unfoldable pub variadic_args : (lua : LuaStack) → ℕ → lua.State → VariadicArgs
variadic_args lua stackindex s = record { index = stackindex; stacktop = lua.gettop s }

-- `push` to the stack of the same thread: how much was pushed, and the loop.
unfoldable pub push_args : (lua : LuaStack) → VariadicArgs → lua.State → ℕ × lua.State
push_args lua a s =
    let pushcount = a.stacktop + 1 - a.index in (pushcount, push_from lua pushcount a.index s)

-- The move constructor: the new arguments, and what is left of the old ones.
unfoldable pub move_args : VariadicArgs → VariadicArgs × VariadicArgs
move_args o =
    (record { index = o.index; stacktop = o.stacktop }, record { index = 0; stacktop = 0 })

-- The move assignment.
unfoldable pub move_assign_args : VariadicArgs → VariadicArgs → VariadicArgs × VariadicArgs
move_assign_args self o =
    (record self { index = o.index; stacktop = o.stacktop }, record { index = 0; stacktop = 0 })
