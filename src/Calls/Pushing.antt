-- ===== src/Calls/Pushing.antt =====
-- Pushing the results of a call and variadic arguments once more, and walking through them.
use sol.Base.{
  ℕ, zero, suc, ◌+◌, ◌-◌, ◌<◌, ◌≡◌, refl, sym, ap, ◌∙◌, arith, true, false, ◌==◌, Option, none,
  some, List, [], ◌∷◌, ◌++◌, length, length-append, get_elem?,
}
use sol.Calls.Stack.{LuaStack, IsLuaStack}
use sol.Calls.Result.{ProtectedFunctionResult, push_from, push_result}
use sol.Calls.Iterator.{
  max_int, StackIterator, increment, equal, begin_result, end_result, visit, begin_args, end_args,
  leftover_count, variadic_args, push_args,
}
use sol.Calls.Removal.{append_nil, append_assoc, gettop_of}
use sol.Calls.Balance.{Returns}

get_elem?-append {ℓ} :
    {A : Type ℓ} (xs zs : List A) (y : A) → get_elem? (xs ++ y ∷ zs) (length xs) ≡ some y
get_elem?-append [] zs y = refl
get_elem?-append (x ∷ xs) zs y = get_elem?-append xs zs y

-- The values at positions, which count from 1.
abbrev pub read {ℓ} : {A : Type ℓ} → List A → List ℕ → Option (List A)
read xs [] = some []
read xs (p ∷ ps) = elim (get_elem? xs (p - 1)) [
  | none ↦ none
  | some v ↦ elim (read xs ps) [ none ↦ none | some vs ↦ some (v ∷ vs) ]
]

read-one_more {ℓ} :
    {A : Type ℓ} (all : List A) (p : ℕ) (ps : List ℕ) (v : A) (vs : List A)
    → get_elem? all (p - 1) ≡ some v
    → read all ps ≡ some vs
    → read all (p ∷ ps) ≡ some (v ∷ vs)
read-one_more all p ps v vs a b =
    ap
      (λ o. elim o [
        | none ↦ none
        | some w ↦ elim (read all ps) [ none ↦ none | some ws ↦ some (w ∷ ws) ]
      ])
      a
    ∙ ap (λ o. elim o [ none ↦ none | some ws ↦ some (v ∷ ws) ]) b

abbrev pub range : ℕ → ℕ → List ℕ
range i zero = []
range i (suc n) = i ∷ range (suc i) n

read-range {ℓ} :
    {A : Type ℓ} (xs ys zs : List A) (n : ℕ) (all : List A)
    → all ≡ xs ++ (ys ++ zs)
    → n ≡ suc (length xs)
    → read all (range n (length ys)) ≡ some ys
read-range xs [] zs n all e at_xs = refl
read-range xs (y ∷ ys) zs n all e at_xs =
    let before : n - 1 ≡ length xs = ground arith in
    let here : get_elem? all (n - 1) ≡ some y = rw (e, before) (get_elem?-append xs (ys ++ zs) y) in
    let rest =
      read-range (xs ++ y ∷ []) ys zs (suc n) all (e ∙ sym (append_assoc xs (y ∷ []) (ys ++ zs)))
        (ground (arith, length-append xs (y ∷ []))) in
    read-one_more all n (range (suc n) (length ys)) y ys here rest

visit-one_more :
    (fuel : ℕ) (it end : StackIterator) (rest : List ℕ)
    → equal it end ≡ false
    → visit fuel (increment it) end ≡ some rest
    → visit (suc fuel) it end ≡ some (it.index ∷ rest)
unfolding visit
visit-one_more fuel it end rest more e = rw (more, e) refl

-- The loop of a range-based `for` from `i` to `i + n` ends, and visits these positions in order.
visit-range :
    (n i t : ℕ)
    → t ≡ i + n
    → t < max_int
    → visit (suc n) (record { index = i; stacktop = t }) (record { index = t; stacktop = t })
      ≡ some (range i n)
unfolding visit equal increment
visit-range zero i t e small =
    let bounded : (t == max_int) ≡ false = ground arith in
    let here : (i == t) ≡ true = ground arith in rw (bounded, here) refl
visit-range (suc n) i t e small =
    let bounded : (t == max_int) ≡ false = ground arith in
    let before : (i == t) ≡ false = ground arith in
    visit-one_more (suc n) (record { index = i; stacktop = t }) (record { index = t; stacktop = t })
      _ (rw (bounded, before) refl) (visit-range n (suc i) t (ground arith) small)

module _ (lua : LuaStack) (laws : IsLuaStack lua) where
  open lua use {State, Value, stack}

  push_from_lem :
      (xs ys zs : List Value) (n : ℕ) (s : State)
      → stack s ≡ xs ++ (ys ++ zs)
      → n ≡ suc (length xs)
      → stack (push_from lua (length ys) n s) ≡ stack s ++ ys
  unfolding push_from
  push_from_lem xs [] zs n s e at_xs = sym (append_nil (stack s))
  push_from_lem xs (y ∷ ys) zs n s e at_xs = rw at_xs (
      let there : get_elem? (stack s) (length xs) ≡ some y =
        rw e (get_elem?-append xs (ys ++ zs) y) in
      let pushed = laws.pushvalue_lem (length xs) y s there in
      let next : stack (lua.pushvalue (suc (length xs)) s)
          ≡ (xs ++ y ∷ []) ++ (ys ++ (zs ++ y ∷ [])) =
        pushed
        ∙ ap (λ l. l ++ y ∷ []) e
        ∙ append_assoc xs (y ∷ (ys ++ zs)) (y ∷ [])
        ∙ ap (λ l. xs ++ y ∷ l) (append_assoc ys zs (y ∷ []))
        ∙ sym (append_assoc xs (y ∷ []) (ys ++ (zs ++ y ∷ []))) in
      push_from_lem (xs ++ y ∷ []) ys (zs ++ y ∷ []) (suc (suc (length xs))) _ next
        (ground (arith, length-append xs (y ∷ [])))
      ∙ ap (λ l. l ++ ys) pushed
      ∙ append_assoc (stack s) (y ∷ []) ys)

  -- The result of a call, as long as it ends below the largest `int`: walking from `begin()` to
  -- `end()` comes to an end after the returned values, each in its order, and pushing the result
  -- pushes exactly these values.
  pub result-elements :
      (s s' : State) (r : ProtectedFunctionResult) (q : Returns lua s r s')
      → r.index + r.returncount < max_int
      → (ps : List ℕ) × (visit (suc r.returncount) (begin_result r) (end_result r) ≡ some ps)
        × (read (stack s') ps ≡ some q.returned)
        × (stack (push_result lua r s') ≡ stack s' ++ q.returned)
  unfolding begin_result end_result push_result
  result-elements s s' r q small =
      let there : stack s' ≡ stack s ++ (q.returned ++ []) =
        q.left ∙ ap (λ l. stack s ++ l) (sym (append_nil q.returned)) in
      (
        range r.index r.returncount,
        visit-range r.returncount r.index _ refl small,
        rw q.returncount_lem (read-range (stack s) q.returned [] r.index _ there q.index_lem),
        rw q.popcount_lem (push_from_lem (stack s) q.returned [] r.index s' there q.index_lem),
      )

  -- Variadic arguments from the position above `xs`, when `ys` are above `xs` and nothing else:
  -- `leftover_count` is the number of `ys`, the walk from `begin()` to `end()` ends and visits them in
  -- order, and `push` pushes them all and says how many, as long as the top is below the largest `int`.
  pub args-elements :
      (xs ys : List Value) (s : State)
      → stack s ≡ xs ++ ys
      → lua.gettop s + 1 < max_int
      → let a = variadic_args lua (suc (length xs)) s in
        (ps : List ℕ) × (visit (suc (leftover_count a)) (begin_args a) (end_args a) ≡ some ps)
        × (read (stack s) ps ≡ some ys)
        × (leftover_count a ≡ length ys)
        × ((push_args lua a s).0 ≡ length ys)
        × (stack (push_args lua a s).1 ≡ stack s ++ ys)
  unfolding leftover_count begin_args end_args push_args variadic_args
  args-elements xs ys s e small =
      let there : stack s ≡ xs ++ (ys ++ []) = e ∙ ap (λ l. xs ++ l) (sym (append_nil ys)) in
      let total = gettop_of lua laws xs ys [] s there in
      let count : lua.gettop s + 1 - suc (length xs) ≡ length ys = ground arith in
      (
        range (suc (length xs)) (length ys),
        rw count (visit-range (length ys) (suc (length xs)) _ (ground arith) small),
        read-range xs ys [] _ _ there refl,
        count,
        count,
        rw count (push_from_lem xs ys [] _ s there refl),
      )
