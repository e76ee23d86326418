-- ===== src/Calls/Small.antt =====
-- A stack of numbers. A function returns its arguments, and fails when it is given none.
use sol.Base.{
  ℕ, zero, suc, ◌-◌, ◌≡◌, refl, ap, arith, Option, none, some, List, [], ◌∷◌, ◌++◌, length,
  length-append, get_elem?, take, drop, ◌⊎◌, inl, inr,
}
use sol.Calls.Stack.{LuaStack, IsLuaStack, ℤ, pos, negsuc, CallStatus, ok, runtime}

abbrev value_or_zero : Option ℕ → ℕ
value_or_zero none = 0
value_or_zero (some v) = v

abbrev without : List ℕ → ℕ → List ℕ
without [] i = []
without (x ∷ xs) zero = xs
without (x ∷ xs) (suc i) = x ∷ without xs i

abbrev pub below_call : ℕ → List ℕ → List ℕ
below_call n s = take (length s - n - 1) s

abbrev arguments : ℕ → List ℕ → List ℕ
arguments n s = drop (length s - n) s

abbrev protected : ℕ → List ℕ → List ℕ → CallStatus × List ℕ
protected zero below args = (runtime, below ++ 99 ∷ [])
protected (suc n) below args = (ok, below ++ args)

abbrev absolute : ℤ → List ℕ → ℤ
absolute (pos n) s = pos n
absolute (negsuc n) s = pos (length s - n)

abbrev pub numbers : LuaStack
numbers = record {
  State = List ℕ;
  Value = ℕ;
  stack = λ s. s;
  gettop = λ s. length s;
  absindex = absolute;
  pop = λ n s. take (length s - n) s;
  remove = λ i s. without s (i - 1);
  pushvalue = λ i s. s ++ value_or_zero (get_elem? s (i - 1)) ∷ [];
  push = λ v s. s ++ v ∷ [];
  pcall = λ n h s. protected n (below_call n s) (arguments n s);
  call = λ n s. below_call n s ++ arguments n s;
}

pub take_all : (xs ys : List ℕ) (n : ℕ) → n ≡ length xs → take n (xs ++ ys) ≡ xs
take_all [] ys n e = rw e refl
take_all (x ∷ xs) ys n e = rw e (ap (λ l. x ∷ l) (take_all xs ys (length xs) refl))

without_lem : (xs ys : List ℕ) (x n : ℕ) → n ≡ length xs → without (xs ++ x ∷ ys) n ≡ xs ++ ys
without_lem [] ys x n e = rw e refl
without_lem (y ∷ xs) ys x n e = rw e (ap (λ l. y ∷ l) (without_lem xs ys x (length xs) refl))

pub below_call_lem :
    (below args s : List ℕ) (f : ℕ) → s ≡ below ++ f ∷ args → below_call (length args) s ≡ below
below_call_lem below args s f e =
    let size = length-append below (f ∷ args) in rw e (take_all below (f ∷ args) _ (ground arith))

one_value :
    (n : ℕ) (below args : List ℕ)
    → (rs : List ℕ) × ((protected n below args).1 ≡ below ++ rs)
      × (((protected n below args).0 ≡ ok) ⊎ (length rs ≡ 1))
one_value zero below args = (99 ∷ [], refl, inr refl)
one_value (suc n) below args = (args, refl, inl refl)

pub numbers-IsLuaStack : IsLuaStack numbers
numbers-IsLuaStack = record {
  gettop_lem = λ s. refl;
  absindex_pos = λ n s. refl;
  absindex_negsuc = λ n s. refl;
  pop_lem = λ xs ys s e. let size = length-append xs ys in rw e (take_all xs ys _ (ground arith));
  remove_lem = λ xs ys x s e. rw e (without_lem xs ys x _ (ground arith));
  pushvalue_lem = λ i v s e. let place : suc i - 1 ≡ i = ground arith in rw (place, e) refl;
  push_lem = λ v s. refl;
  pcall_lem = λ below args f h s e.
      rw (below_call_lem below args s f e)
        (one_value (length args) below (arguments (length args) s));
  call_lem =
      λ below args f s e. (arguments (length args) s, rw (below_call_lem below args s f e) refl);
}
