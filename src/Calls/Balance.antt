-- ===== src/Calls/Balance.antt =====
-- What calls leave on the stack, and that the end of a result takes it away.
use sol.Base.{
  ℕ, suc, ◌+◌, ◌-◌, ◌≡◌, refl, sym, ap, ◌∙◌, arith, Bool, true, false, not, ◌==◌, ◌&&◌,
  if◌then◌else◌, List, [], ◌∷◌, ◌++◌, length, length-append, ◌⊎◌, inl, inr,
}
use sol.Calls.Stack.{LuaStack, IsLuaStack, CallStatus, ok, pos, push_all, remove}
use sol.Calls.Result.{
  ProtectedFunctionResult, destroy, destroy_unsafe, move_construct, move_assign,
  move_construct_unsafe, abandon, abandon_unsafe, valid, is_success,
}
use sol.Calls.Invoke.{
  Handler, max_one, handler_construct, handler_destroy, handler_size, invoke, call, invoke_unsafe,
  call_unsafe,
}
use sol.Calls.Removal.{append_nil, append_assoc, push_all_lem, remove_lem, gettop_of}

-- The result speaks of exactly what the call has left on the stack, and a failed call has left one
-- value, the error.
pub record Returns (lua : LuaStack) (s : lua.State) (r : ProtectedFunctionResult) (s' : lua.State)
    : Type 0 where
  pub returned : List lua.Value
  pub left : lua.stack s' ≡ lua.stack s ++ returned
  pub index_lem : r.index ≡ suc (length (lua.stack s))
  pub returncount_lem : r.returncount ≡ length returned
  pub popcount_lem : r.popcount ≡ length returned
  pub error_value : valid r ≡ false → length returned ≡ 1

-- The error handler that stands below the function, if there is one and it is not on the stack yet, and
-- the index of the handler that Lua is given.
abbrev pub handler_values : {lua : LuaStack} → Handler lua → List lua.Value
handler_values h = if h.valid && not h.is_stack then h.value ∷ [] else []

abbrev pub message_handler : {lua : LuaStack} → Handler lua → ℕ → ℕ
message_handler h size = if not h.valid then 0 else if h.is_stack then h.stack_index else suc size

-- Lua has called `f` with the arguments and the handler, above the caller's values, and the result is
-- what this call has left: the status is the result's, and the values that Lua has put in the place of the
-- function stand above the caller's.
pub record Called (lua : LuaStack) (h : Handler lua) (f : lua.Value) (args : List lua.Value)
    (s : lua.State) (r : ProtectedFunctionResult) (s' : lua.State) : Type 0 where
  pub ready : lua.State
  pub ready_lem : lua.stack ready ≡ (lua.stack s ++ handler_values h) ++ f ∷ args
  pub returns : Returns lua s r s'
  pub status_lem :
      r.err ≡ (lua.pcall (length args) (message_handler h (length (lua.stack s))) ready).0
  pub called_lem :
      lua.stack (lua.pcall (length args) (message_handler h (length (lua.stack s))) ready).1
      ≡ (lua.stack s ++ handler_values h) ++ returns.returned

module _ (lua : LuaStack) (laws : IsLuaStack lua) where
  open lua use {State, Value, stack}

  failed_once :
      (code : CallStatus) (n : ℕ) → (code ≡ ok) ⊎ (n ≡ 1) → is_success code ≡ false → n ≡ 1
  unfolding is_success
  failed_once code n (inl e) bad = let good : is_success code ≡ true = rw e refl in cc
  failed_once code n (inr e) bad = e

  -- The call behind what stands below the function: the values of the caller, and the handler.
  pub record Invoked (h : Handler lua) (s0 : State) (below : List Value)
      (r : ProtectedFunctionResult) (s : State) : Type 0 where
    pub returned : List Value
    pub left : stack s ≡ below ++ returned
    pub index_lem : r.index ≡ suc (length (stack s0))
    pub returncount_lem : r.returncount ≡ length returned
    pub popcount_lem : r.popcount ≡ length returned
    pub error_value : valid r ≡ false → length returned ≡ 1

  pub invoke-Invoked :
      (h : Handler lua) (stackindex : ℕ) (s0 s : State) (below args : List Value) (f : Value)
      → stack s ≡ below ++ f ∷ args
      → length below ≡ length (stack s0) + handler_size lua h
      → Invoked h s0 below
          (invoke lua h stackindex (length args) s).0
          (invoke lua h stackindex (length args) s).1
  unfolding invoke max_one valid
  invoke-Invoked h stackindex s0 s below args f e size =
      let (rs, left, success) = laws.pcall_lem below args f stackindex s e in
      let before = gettop_of lua laws below (f ∷ []) args s e in
      let after =
        laws.gettop_lem (lua.pcall (length args) stackindex s).1
        ∙ ap length left
        ∙ length-append below rs in
      record {
        returned = rs;
        left = left;
        index_lem = ground arith;
        returncount_lem = ground arith;
        popcount_lem = ground arith;
        error_value = failed_once _ _ success;
      }

  -- `invoke`, where no handler has been pushed.
  pub unhandled-Called :
      (h : Handler lua) (i : ℕ) (f : Value) (args : List Value) (s s1 : State)
      → (h.valid && not h.is_stack) ≡ false
      → i ≡ message_handler h (length (stack s))
      → stack s1 ≡ stack s ++ f ∷ args
      → let (r, s') = invoke lua h i (length args) s1 in Called lua h f args s r s'
  unhandled-Called h i f args s s1 stays place e =
      let size : length (stack s) ≡ length (stack s) + handler_size lua h =
        unfold handler_size in rw stays (ground arith) in
      let inv = invoke-Invoked h i s s1 (stack s) args f e size in
      let nothing : stack s ++ handler_values h ≡ stack s = rw stays (append_nil (stack s)) in
      record {
        ready = s1;
        ready_lem = rw nothing e;
        returns = record {
          returned = inv.returned;
          left = inv.left;
          index_lem = inv.index_lem;
          returncount_lem = inv.returncount_lem;
          popcount_lem = inv.popcount_lem;
          error_value = inv.error_value;
        };
        status_lem = rw (← place) (unfold invoke in refl);
        called_lem = rw (← place, nothing) (unfold invoke in inv.left);
      }

  -- `invoke`, where a handler has been pushed, and its removal.
  pub handled-Called :
      (h : Handler lua) (i : ℕ) (f : Value) (args : List Value) (s s1 : State)
      → (h.valid && not h.is_stack) ≡ true
      → i ≡ suc (length (stack s))
      → suc (length (stack s)) ≡ message_handler h (length (stack s))
      → stack s1 ≡ (stack s ++ h.value ∷ []) ++ f ∷ args
      → let (r, s') = invoke lua h i (length args) s1 in Called lua h f args s r (lua.remove i s')
  handled-Called h i f args s s1 pushes at place e =
      let size : length (stack s ++ h.value ∷ []) ≡ length (stack s) + handler_size lua h =
        unfold handler_size in rw pushes (length-append (stack s) (h.value ∷ [])) in
      let inv = invoke-Invoked h i s s1 (stack s ++ h.value ∷ []) args f e size in
      let s2 = (invoke lua h i (length args) s1).1 in
      let one : handler_values h ≡ h.value ∷ [] = rw pushes refl in
      record {
        ready = s1;
        ready_lem = rw one e;
        returns = record {
          returned = inv.returned;
          left =
              ap (λ (j : ℕ). stack (lua.remove j s2)) at
              ∙ laws.remove_lem (stack s) inv.returned h.value s2
                  (inv.left ∙ append_assoc (stack s) (h.value ∷ []) inv.returned);
          index_lem = inv.index_lem;
          returncount_lem = inv.returncount_lem;
          popcount_lem = inv.popcount_lem;
          error_value = inv.error_value;
        };
        status_lem = rw (← place, ← at) (unfold invoke in refl);
        called_lem = rw (← place, ← at, one) (unfold invoke in inv.left);
      }

  pushed_call :
      (f : Value) (args : List Value) (s : State)
      → stack (push_all lua args (lua.push f s)) ≡ stack s ++ f ∷ args
  pushed_call f args s =
      push_all_lem lua laws args (lua.push f s)
      ∙ ap (λ l. l ++ args) (laws.push_lem f s)
      ∙ append_assoc (stack s) (f ∷ []) args

  handled_call :
      (v i : Bool) (x : Value) (k : ℕ) (f : Value) (args : List Value) (s : State)
      → let h : Handler lua = record { valid = v; is_stack = i; value = x; stack_index = k } in
        Called lua h f args s (call lua f h args s).0 (call lua f h args s).1
  unfolding call handler_construct handler_destroy
  handled_call true true x k f args s =
      unhandled-Called _ k f args s _ refl refl (pushed_call f args s)
  handled_call false true x k f args s =
      unhandled-Called _ 0 f args s _ refl refl (pushed_call f args s)
  handled_call false false x k f args s =
      unhandled-Called _ 0 f args s _ refl refl (pushed_call f args s)
  handled_call true false x k f args s =
      let not_zero : (lua.gettop s + 1 == 0) ≡ false = ground arith in
      let h : Handler lua = record { valid = true; is_stack = false; value = x; stack_index = k } in
      let at : lua.gettop s + 1 ≡ suc (length (stack s)) = ground (arith, laws.gettop_lem s) in
      let there = pushed_call f args (lua.push x s) ∙ ap (λ l. l ++ f ∷ args) (laws.push_lem x s) in
      rw not_zero (handled-Called h (lua.gettop s + 1) f args s _ refl at refl there)

  -- A call that does not throw through Lua, whether it succeeds or fails, with or without an error
  -- handler: Lua calls the function with the arguments, and with the handler, which stands below the
  -- function if it was not on the stack before. What Lua has put in the place of the function is left
  -- above the caller's values, without the handler, and the result refers to it: its status is the one that
  -- Lua reports, its index and its counts are those of these values, and it is one error value if the
  -- result is not valid.
  pub call-Returns :
      (f : Value) (h : Handler lua) (args : List Value) (s : State)
      → Called lua h f args s (call lua f h args s).0 (call lua f h args s).1
  call-Returns f h args s = handled_call h.valid h.is_stack h.value h.stack_index f args s

  pub destroyed :
      (s s' : State) (r : ProtectedFunctionResult)
      → Returns lua s r s'
      → stack (destroy lua r s') ≡ stack s
  unfolding destroy
  destroyed s s' r q =
      let there : stack s' ≡ stack s ++ (q.returned ++ []) =
        q.left ∙ ap (λ l. stack s ++ l) (sym (append_nil q.returned)) in
      rw (q.index_lem, q.popcount_lem)
        (remove_lem lua laws (pos (suc (length (stack s)))) (stack s) q.returned [] s' there
            (laws.absindex_pos _ s')
          ∙ append_nil (stack s))

  -- Calling a function, moving the result to another one, and destroying both, the one that was moved
  -- from first, leaves the stack as it was before the call.
  pub call-restores :
      (f : Value) (h : Handler lua) (args : List Value) (s : State)
      → let (r, s') = call lua f h args s in
        let (r', moved) = move_construct r in
        stack (destroy lua r' (destroy lua moved s')) ≡ stack s
  unfolding destroy move_construct abandon remove
  call-restores f h args s = destroyed s _ _ (call-Returns f h args s).returns

  -- When the result of a call is assigned by move to the result of an earlier call that is still alive,
  -- and then both are destroyed, what the earlier call returned stays on the stack.
  pub move_assign-leaves :
      (f g : Value) (h : Handler lua) (args args' : List Value) (s : State)
      → let (earlier, s1) = call lua f h args s in
        let (later, s2) = call lua g h args' s1 in
        let (r, moved) = move_assign earlier later in
        (returned : List Value) × (earlier.popcount ≡ length returned)
        × (stack (destroy lua r (destroy lua moved s2)) ≡ stack s ++ returned)
  unfolding destroy move_assign abandon remove
  move_assign-leaves f g h args args' s =
      let s1 = (call lua f h args s).1 in
      let first = (call-Returns f h args s).returns in
      (
        first.returned,
        first.popcount_lem,
        destroyed s1 _ _ (call-Returns g h args' s1).returns ∙ first.left,
      )

  -- A function called without protection leaves what it returned above the caller's values, and the
  -- end of the result, moved to another one, takes it away again.
  pub call_unsafe-restores :
      (f : Value) (args : List Value) (s : State)
      → let (r, s') = call_unsafe lua f args s in
        let (r', moved) = move_construct_unsafe r in
        (returned : List Value) × (stack s' ≡ stack s ++ returned)
        × (r'.index ≡ suc (length (stack s)))
        × (r'.returncount ≡ length returned)
        × (stack (destroy_unsafe lua r' (destroy_unsafe lua moved s')) ≡ stack s)
  unfolding call_unsafe invoke_unsafe max_one move_construct_unsafe abandon_unsafe destroy_unsafe
  call_unsafe-restores f args s =
      let s3 = push_all lua args (lua.push f s) in
      let (rs, left) = laws.call_lem (stack s) args f s3 (pushed_call f args s) in
      let before = gettop_of lua laws (stack s) (f ∷ []) args s3 (pushed_call f args s) in
      let after =
        laws.gettop_lem (lua.call (length args) s3) ∙ ap length left ∙ length-append (stack s) rs in
      let none_popped =
        laws.pop_lem (stack s ++ rs) [] (lua.call (length args) s3)
          (left ∙ sym (append_nil (stack s ++ rs))) in
      let place : max_one (lua.gettop s3 - length args) ≡ suc (length (stack s)) = ground arith in
      let count : lua.gettop (lua.call (length args) s3)
            - (max_one (lua.gettop s3 - length args) - 1)
          ≡ length rs =
        ground arith in
      (rs, left, place, count, rw count (laws.pop_lem (stack s) rs _ none_popped))
