-- ===== src/Calls/Removal.antt =====
-- `stack::remove` takes out exactly the slots that it is told.
use sol.Base.{
  ℕ, suc, ◌+◌, ◌-◌, ◌<◌, ◌≡◌, refl, sym, ap, ◌∙◌, arith, true, false, ◌==◌, ◌||◌, List, [], ◌∷◌,
  ◌++◌, length, length-append, inl, inr, Bool-cases,
}
use sol.Calls.Stack.{
  LuaStack, IsLuaStack, ℤ, pos, negsuc, is_minus, is_pos, from_bottom, remove_times, remove,
  push_all,
}

abbrev magnitude : ℤ → ℕ
magnitude (pos n) = n
magnitude (negsuc n) = n

no_more {ℓ} : {A : Type ℓ} (zs : List A) → length zs ≡ 0 → zs ≡ []
no_more [] e = refl
no_more (z ∷ zs) e = cc

pub append_nil {ℓ} : {A : Type ℓ} (xs : List A) → xs ++ [] ≡ xs
append_nil [] = refl
append_nil (x ∷ xs) = ap (λ ys. x ∷ ys) (append_nil xs)

pub append_assoc {ℓ} : {A : Type ℓ} (xs ys zs : List A) → (xs ++ ys) ++ zs ≡ xs ++ (ys ++ zs)
append_assoc [] ys zs = refl
append_assoc (x ∷ xs) ys zs = ap (λ l. x ∷ l) (append_assoc xs ys zs)

module _ (lua : LuaStack) (laws : IsLuaStack lua) where
  open lua use {State, Value, stack}

  pub gettop_of :
      (xs ys zs : List Value) (s : State)
      → stack s ≡ xs ++ (ys ++ zs)
      → lua.gettop s ≡ length xs + (length ys + length zs)
  gettop_of xs ys zs s e =
      laws.gettop_lem s
      ∙ ap length e
      ∙ length-append xs (ys ++ zs)
      ∙ ap (λ n. length xs + n) (length-append ys zs)

  remove_times_lem :
      (xs ys zs : List Value) (s : State)
      → stack s ≡ xs ++ (ys ++ zs)
      → stack (remove_times lua (length ys) (suc (length xs)) s) ≡ xs ++ zs
  unfolding remove_times
  remove_times_lem xs [] zs s e = e
  remove_times_lem xs (y ∷ ys) zs s e =
      remove_times_lem xs ys zs _ (laws.remove_lem xs (ys ++ zs) y s e)

  -- When `remove` takes the slots from the top, nothing is above them.
  top_only :
      (raw : ℤ) (xs ys zs : List Value) (s : State)
      → stack s ≡ xs ++ (ys ++ zs)
      → lua.absindex raw s ≡ pos (suc (length xs))
      → 0 < length ys
      → (is_minus raw (length ys) || is_pos raw (lua.gettop s)) ≡ true
      → zs ≡ []
  unfolding is_minus is_pos
  top_only (pos n) xs ys zs s e at_xs some_ys top =
      let total = gettop_of xs ys zs s e in
      let place : n ≡ suc (length xs) = ap magnitude (sym (laws.absindex_pos n s) ∙ at_xs) in
      no_more zs (ground arith)
  top_only (negsuc n) xs ys zs s e at_xs some_ys top =
      let total = sym (laws.gettop_lem s) ∙ gettop_of xs ys zs s e in
      let place : length (stack s) - n ≡ suc (length xs) =
        ap magnitude (sym (laws.absindex_negsuc n s) ∙ at_xs) in
      no_more zs (ground arith)

  popped :
      (xs ys zs : List Value) (s : State)
      → stack s ≡ xs ++ (ys ++ zs)
      → zs ≡ []
      → stack (lua.pop (length ys) s) ≡ xs ++ zs
  popped xs ys zs s e none_above =
      let below : stack s ≡ xs ++ ys =
        e ∙ ap (λ l. xs ++ (ys ++ l)) none_above ∙ ap (λ l. xs ++ l) (append_nil ys) in
      laws.pop_lem xs ys s below ∙ sym (append_nil xs) ∙ ap (λ l. xs ++ l) (sym none_above)

  some_removed :
      (raw : ℤ) (xs ys zs : List Value) (s : State)
      → stack s ≡ xs ++ (ys ++ zs)
      → lua.absindex raw s ≡ pos (suc (length xs))
      → (length ys == 0) ≡ false
      → stack (remove lua raw (length ys) s) ≡ xs ++ zs
  unfolding remove from_bottom
  some_removed raw xs ys zs s e at_xs n =
      let total = gettop_of xs ys zs s e in
      let not_empty : (lua.gettop s == 0) ≡ false = ground arith in
      let some_ys : 0 < length ys = ground arith in
      elim (Bool-cases (is_minus raw (length ys) || is_pos raw (lua.gettop s))) [
        | inl t ↦
            rw (n, not_empty, t) (popped xs ys zs s e (top_only raw xs ys zs s e at_xs some_ys t))
        | inr t ↦ rw (n, not_empty, t, at_xs) (remove_times_lem xs ys zs s e)
      ]

  -- If `rawindex` stands for the position right above the slots `xs`, `remove` with the count of the
  -- slots `ys` takes out `ys` and nothing else, whatever is above, and whether the index counts from
  -- the bottom or from the top.
  pub remove_lem :
      (raw : ℤ) (xs ys zs : List Value) (s : State)
      → stack s ≡ xs ++ (ys ++ zs)
      → lua.absindex raw s ≡ pos (suc (length xs))
      → stack (remove lua raw (length ys) s) ≡ xs ++ zs
  remove_lem raw xs ys zs s e at_xs = elim (Bool-cases (length ys == 0)) [
    | inl z ↦
        let none_here : ys ≡ [] = no_more ys (ground arith) in
        unfold remove in rw z (e ∙ ap (λ l. xs ++ (l ++ zs)) none_here)
    | inr n ↦ some_removed raw xs ys zs s e at_xs n
  ]

  pub push_all_lem : (vs : List Value) (s : State) → stack (push_all lua vs s) ≡ stack s ++ vs
  unfolding push_all
  push_all_lem [] s = sym (append_nil (stack s))
  push_all_lem (v ∷ vs) s =
      push_all_lem vs (lua.push v s)
      ∙ ap (λ l. l ++ vs) (laws.push_lem v s)
      ∙ append_assoc (stack s) (v ∷ []) vs
