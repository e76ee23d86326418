-- ===== src/Calls/Loading.antt =====
-- Scripts leave on the stack what their results say.
use sol.Base.{
  ℕ, suc, ◌≡◌, refl, sym, ap, ◌∙◌, arith, Bool, true, false, ◌==◌, List, [], ◌∷◌, ◌++◌, some,
  length, length-append, get_elem?, ◌⊎◌, ◌≢◌, inl, inr, Bool-cases,
}
use sol.Calls.Stack.{
  LuaStack, IsLuaStack, CallStatus, ok, pos, negsuc, from_bottom, remove, push_all,
}
use sol.Calls.Result.{ProtectedFunctionResult, destroy, valid}
use sol.Calls.Invoke.{Handler, handler_construct, handler_destroy}
use sol.Calls.Scripts.{Loader, is_ok, move_load, load, destroy_load, call_aligned, do_string}
use sol.Calls.Removal.{append_nil, append_assoc, push_all_lem, remove_lem}
use sol.Calls.Balance.{Returns, Called, unhandled-Called, handled-Called}

-- What Lua's manual says: a function or an error message is pushed, and the top takes the place of the
-- third value from the top.
pub record IsLoader (lua : LuaStack) (loader : Loader lua) : Type 0 where
  pub load_lem :
      (s : lua.State)
      → (f : lua.Value) × (lua.stack (loader.loadbufferx s).1 ≡ lua.stack s ++ f ∷ [])
  pub replace_lem :
      (xs : List lua.Value) (x y z : lua.Value) (s : lua.State)
      → lua.stack s ≡ xs ++ x ∷ y ∷ z ∷ []
      → lua.stack (loader.replace s) ≡ xs ++ z ∷ y ∷ []

module _ (lua : LuaStack) (laws : IsLuaStack lua) (loader : Loader lua)
    (loads : IsLoader lua loader) where
  open lua use {State, Value, stack}

  -- The absolute index of the value with `k` values above it.
  from_top :
      (xs ys : List Value) (x : Value) (k : ℕ) (s : State)
      → stack s ≡ xs ++ x ∷ ys
      → length ys ≡ k
      → from_bottom lua (lua.absindex (negsuc k) s) s ≡ suc (length xs)
  unfolding from_bottom
  from_top xs ys x k s e size =
      let total = ap length e ∙ length-append xs (x ∷ ys) in
      rw (laws.absindex_negsuc k s) (ground arith)

  -- What a result says of the values that it has to remove.
  pub record Leaves (s : State) (r : ProtectedFunctionResult) (s' : State) : Type 0 where
    pub returned : List Value
    pub left : stack s' ≡ stack s ++ returned
    pub index_lem : r.index ≡ suc (length (stack s))
    pub popcount_lem : r.popcount ≡ length returned
    pub error_value : valid r ≡ false → length returned ≡ 1
    pub restored : stack (destroy lua r s') ≡ stack s

  removed :
      (s s' : State) (returned : List Value)
      → stack s' ≡ stack s ++ returned
      → stack (remove lua (pos (suc (length (stack s)))) (length returned) s') ≡ stack s
  removed s s' returned e =
      let there : stack s' ≡ stack s ++ (returned ++ []) =
        e ∙ ap (λ l. stack s ++ l) (sym (append_nil returned)) in
      remove_lem lua laws (pos (suc (length (stack s)))) (stack s) returned [] s' there
        (laws.absindex_pos _ s')
      ∙ append_nil (stack s)

  Returns-Leaves : (s s' : State) (r : ProtectedFunctionResult) → Returns lua s r s' → Leaves s r s'
  unfolding destroy
  Returns-Leaves s s' r q = record {
    returned = q.returned;
    left = q.left;
    index_lem = q.index_lem;
    popcount_lem = q.popcount_lem;
    error_value = q.error_value;
    restored = rw (q.index_lem, q.popcount_lem) (removed s s' q.returned q.left);
  }

  element_above : (xs ys : List Value) (x : Value) → get_elem? (xs ++ x ∷ ys) (length xs) ≡ some x
  element_above [] ys x = refl
  element_above (y ∷ xs) ys x = element_above xs ys x

  abbrev swapped : Value → ℕ → State → State
  swapped x index s = loader.replace (lua.push x (lua.pushvalue index s))

  -- The handler has come below the function.
  swapped_lem :
      (x f : Value) (s s1 : State)
      → stack s1 ≡ stack s ++ f ∷ []
      → stack (swapped x (suc (length (stack s))) s1) ≡ stack s ++ x ∷ f ∷ []
  swapped_lem x f s s1 e =
      let index = suc (length (stack s)) in
      let there : get_elem? (stack s1) (length (stack s)) ≡ some f =
        ap (λ l. get_elem? l (length (stack s))) e ∙ element_above (stack s) [] f in
      let copied = laws.pushvalue_lem (length (stack s)) f s1 there ∙ ap (λ l. l ++ f ∷ []) e in
      let pushed =
        laws.push_lem x (lua.pushvalue index s1)
        ∙ ap (λ l. l ++ x ∷ []) (copied ∙ append_assoc (stack s) (f ∷ []) (f ∷ []))
        ∙ append_assoc (stack s) (f ∷ f ∷ []) (x ∷ []) in
      loads.replace_lem (stack s) f f x (lua.push x (lua.pushvalue index s1)) pushed

  -- The arguments come above what stands on the stack.
  with_arguments :
      (below args : List Value) (f : Value) (s : State)
      → stack s ≡ below ++ f ∷ []
      → stack (push_all lua args s) ≡ below ++ f ∷ args
  with_arguments below args f s e =
      push_all_lem lua laws args s ∙ ap (λ l. l ++ args) e ∙ append_assoc below (f ∷ []) args

  -- A call of the function that stands on the top leaves what it returned in its place.
  aligned_call-Called :
      (v i : Bool) (x : Value) (k : ℕ) (args : List Value) (f : Value) (s s1 : State)
      → stack s1 ≡ stack s ++ f ∷ []
      → let h : Handler lua = record { valid = v; is_stack = i; value = x; stack_index = k } in
        let (r, s') = call_aligned lua loader h (suc (length (stack s))) args s1 in
        Called lua h f args s r s'
  unfolding call_aligned handler_construct handler_destroy
  aligned_call-Called true true x k args f s s1 e =
      unhandled-Called lua laws _ k f args s _ refl refl (with_arguments (stack s) args f s1 e)
  aligned_call-Called false true x k args f s s1 e =
      unhandled-Called lua laws _ 0 f args s _ refl refl (with_arguments (stack s) args f s1 e)
  aligned_call-Called false false x k args f s s1 e =
      unhandled-Called lua laws _ 0 f args s _ refl refl (with_arguments (stack s) args f s1 e)
  aligned_call-Called true false x k args f s s1 e =
      let s2 = swapped x (suc (length (stack s))) s1 in
      let there = swapped_lem x f s s1 e in
      let place = from_top (stack s) (f ∷ []) x 1 s2 there refl in
      let i = from_bottom lua (lua.absindex (negsuc 1) s2) s2 in
      let not_zero : (i == 0) ≡ false = ground (arith, place) in
      let below =
        with_arguments (stack s ++ x ∷ []) args f s2
          (there ∙ sym (append_assoc (stack s) (x ∷ []) (f ∷ []))) in
      rw not_zero (handled-Called lua laws _ i f args s _ refl place refl below)

  -- The result of code that does not compile.
  failed-Leaves :
      (s s1 : State) (f : Value) (x : CallStatus)
      → stack s1 ≡ stack s ++ f ∷ []
      → Leaves s
          (record { index = suc (length (stack s)); returncount = 0; popcount = 1; err = x })
          s1
  unfolding destroy
  failed-Leaves s s1 f x e = record {
    returned = f ∷ [];
    left = e;
    index_lem = refl;
    popcount_lem = refl;
    error_value = λ bad. refl;
    restored = removed s s1 (f ∷ []) e;
  }

  loaded_at :
      (s s1 : State) (f : Value)
      → stack s1 ≡ stack s ++ f ∷ []
      → from_bottom lua (lua.absindex (negsuc 0) s1) s1 ≡ suc (length (stack s))
  loaded_at s s1 f e = from_top (stack s) [] f 0 s1 e refl

  is_ok-ok : (x : CallStatus) → is_ok x ≡ true → x ≡ ok
  unfolding is_ok
  is_ok-ok ok e = refl
  is_ok-ok _ e = cc

  is_ok-other : (x : CallStatus) → is_ok x ≡ false → x ≢ ok
  unfolding is_ok
  is_ok-other x e same = let good : is_ok x ≡ true = rw same refl in cc

  -- What a script comes to: it compiles and is called without arguments, or it does not, and the result's
  -- status is the one of loading it, which has left the error.
  abbrev pub Ends : Handler lua → State → ProtectedFunctionResult → State → Type 0
  Ends h s r s' =
      let (x, s1) = loader.loadbufferx s in
      ((x ≡ ok) × (f : Value) × (stack s1 ≡ stack s ++ f ∷ []) × Called lua h f [] s r s')
      ⊎ ((x ≢ ok) × (r.err ≡ x) × (stack s' ≡ stack s1))

  -- Running a script, with any error handler or none. If it compiles, Lua calls the function that it
  -- compiles to, and what this call leaves, without the handler, is above the caller's values; its status
  -- is the result's. If it does not compile, the status of loading it is the result's, and what loading
  -- has left, the error, is on the stack. In either case the result refers to what is there, which is one
  -- value if the result is not valid, and the end of the result takes it away again. The end of the result
  -- of loading the script without running it, moved to another one, takes away what was loaded.
  pub do_string-Leaves :
      (h : Handler lua) (s : State)
      → let (r, s') = do_string lua loader h s in
        let (l, s1) = load lua loader s in
        let (l', moved) = move_load l in
        Leaves s r s'
        × Ends h s r s'
        × (stack (destroy_load lua loader l' (destroy_load lua loader moved s1)) ≡ stack s)
  unfolding do_string load move_load destroy_load remove
  do_string-Leaves h s =
      let (x, s1) = loader.loadbufferx s in
      let (f, e) = loads.load_lem s in
      let top = loaded_at s s1 f e in
      let unloaded = removed s s1 (f ∷ []) e in
      elim (Bool-cases (is_ok x)) [
        | inl good ↦
            let c = aligned_call-Called h.valid h.is_stack h.value h.stack_index [] f s s1 e in
            rw (good, top)
              (Returns-Leaves s _ _ c.returns, inl (is_ok-ok x good, f, e, c), unloaded)
        | inr bad ↦
            rw (bad, top) (failed-Leaves s s1 f x e, inr (is_ok-other x bad, refl, refl), unloaded)
      ]
