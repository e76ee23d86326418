-- ===== src/Traversal/Steps.antt =====
-- What the operations of table iterators leave.
use mathlib.Core.Path.{subst}
use sol.Base.{
  ℕ, suc, ◌+◌, ◌-◌, ◌≡◌, refl, sym, ap, ◌∙◌, arith, true, false, none, some, List, [], ◌∷◌, ◌++◌,
  get_elem?, length, length-append,
}
use mathlib.Core.List.{append_assoc, append-nil}
use sol.Calls.Stack.{LuaStack, IsLuaStack, pos, remove}
use sol.Calls.Removal.{remove_lem}
use sol.Traversal.Next.{LuaNext, IsLuaNext}
use sol.Traversal.Iterator.{
  TableIterator, read_pair, take_next, advance, next_pair, step_back, begin_table, end_table,
}

get_elem?-append {ℓ} :
    {A : Type ℓ} (xs ys : List A) (i : ℕ) → get_elem? (xs ++ ys) (length xs + i) ≡ get_elem? ys i
get_elem?-append [] ys i = ap (get_elem? ys) (omega arith)
get_elem?-append (x ∷ xs) ys i =
    let there : suc (length xs) + i ≡ suc (length xs + i) = omega arith in
    rw there (get_elem?-append xs ys i)

module _ (lua : LuaStack) (laws : IsLuaStack lua) (tables : LuaNext lua)
    (order : IsLuaNext lua tables) (caller : List lua.Value) (t : lua.Value) where
  open lua use {State, Value, stack}

  -- In a loop: the table and a key stand above the caller's values, the key's pair has been read, and the
  -- rest of the entries is to come.
  pub record InLoop (i : ℕ) (rest : List (Value × Value)) (it : TableIterator lua) (s : State)
      : Type 0 where
    pub key : Value
    pub item : Value
    pub on_stack : stack s ≡ caller ++ t ∷ key ∷ []
    pub table_at : it.tableidx ≡ suc (length caller)
    pub key_at : it.keyidx ≡ some (suc (suc (length caller)))
    pub pair_read : it.kvp ≡ some (key, item)
    pub counted : it.idx ≡ some i
    pub to_come : tables.after t key ≡ rest

  -- Behind the end: the table alone is left.
  pub record AtEnd (it : TableIterator lua) (s : State) : Type 0 where
    pub on_stack : stack s ≡ caller ++ t ∷ []
    pub table_at : it.tableidx ≡ suc (length caller)
    pub key_at : it.keyidx ≡ none
    pub counted : it.idx ≡ none

  -- What a step comes to, by the entries to come.
  abbrev pub Stepped : ℕ → List (Value × Value) → TableIterator lua → State → Type 0
  Stepped i [] it s = AtEnd it s
  Stepped i ((k, v) ∷ rest) it s = InLoop i rest it s × (it.kvp ≡ some (k, v))

  below : List Value
  below = caller ++ t ∷ []

  size_below : length below ≡ length caller + 1
  unfolding below
  size_below = length-append caller (t ∷ [])

  table_below : get_elem? below (length caller) ≡ some t
  unfolding below
  table_below =
      let there : length caller + 0 ≡ length caller = omega arith in
      ap (get_elem? (caller ++ t ∷ [])) (sym there) ∙ get_elem?-append {A = Value} caller (t ∷ []) 0

  over_below : (vs : List Value) → below ++ vs ≡ caller ++ t ∷ vs
  unfolding below
  over_below vs = append_assoc caller (t ∷ []) vs

  at_stack :
      (vs : List Value) (i : ℕ) (s : State) (n : ℕ)
      → stack s ≡ below ++ vs
      → n ≡ length below + i
      → get_elem? (stack s) n ≡ get_elem? vs i
  at_stack vs i s n e m = rw (e, m) (get_elem?-append {A = Value} below vs i)

  -- The pair that is read from the top of the stack.
  read_lem :
      (k v : Value) (s : State)
      → stack s ≡ below ++ k ∷ v ∷ []
      → read_pair lua tables s ≡ some (k, v)
  unfolding read_pair
  read_lem k v s e =
      let size : lua.gettop s ≡ length below + 2 =
        laws.gettop_lem s ∙ ap length e ∙ length-append below (k ∷ v ∷ []) in
      let low : get_elem? (stack s) (lua.gettop s - 2) ≡ some k =
        at_stack (k ∷ v ∷ []) 0 s (lua.gettop s - 2) e (omega (arith, size)) in
      let high : get_elem? (stack s) (lua.gettop s - 1) ≡ some v =
        at_stack (k ∷ v ∷ []) 1 s (lua.gettop s - 1) e (omega (arith, size)) in
      ground (arith, low, high)

  advance_end :
      (it : TableIterator lua) (idx : ℕ) (key : Value) (s : State)
      → stack s ≡ caller ++ t ∷ key ∷ []
      → it.tableidx ≡ suc (length caller)
      → tables.after t key ≡ []
      → let (it', s') = advance lua tables it idx s in AtEnd it' s'
  unfolding advance below
  advance_end it idx key s e at h =
      let at_key = e ∙ sym (over_below (key ∷ [])) in
      let (end, left) =
        subst (λ n. ((tables.next n s).0 ≡ false) × (stack (tables.next n s).1 ≡ below)) (sym at)
          (order.next_end below t key (length caller) s at_key table_below h) in
      let s1 = (tables.next it.tableidx s).1 in
      subst (λ b. AtEnd (take_next lua tables it idx b s1).0 (take_next lua tables it idx b s1).1)
        (sym end) (record { on_stack = left; table_at = at; key_at = refl; counted = refl })

  advance_entry :
      (it : TableIterator lua) (idx : ℕ) (key k v : Value) (rest : List (Value × Value)) (s : State)
      → stack s ≡ caller ++ t ∷ key ∷ []
      → it.tableidx ≡ suc (length caller)
      → tables.after t key ≡ (k, v) ∷ rest
      → let (it', s') = advance lua tables it idx s in
        InLoop (idx + 1) rest it' s' × (it'.kvp ≡ some (k, v))
  unfolding advance
  advance_entry it idx key k v rest s e at h =
      let at_key = e ∙ sym (over_below (key ∷ [])) in
      let (found, left, more) =
        subst
          (λ n.
            ((tables.next n s).0 ≡ true)
            × (stack (tables.next n s).1 ≡ below ++ k ∷ v ∷ [])
            × (tables.after t k ≡ rest))
          (sym at) (order.next_entry below t key k v rest (length caller) s at_key table_below h) in
      let s1 = (tables.next it.tableidx s).1 in
      let s2 = lua.pop 1 s1 in
      let popped : stack s2 ≡ below ++ k ∷ [] =
        laws.pop_lem (below ++ k ∷ []) (v ∷ []) s1
          (left ∙ sym (append_assoc below (k ∷ []) (v ∷ []))) in
      let top : lua.gettop s2 ≡ suc (suc (length caller)) =
        laws.gettop_lem s2
        ∙ ap length popped
        ∙ omega (arith, length-append below (k ∷ []), size_below) in
      let read = read_lem k v s1 left in
      subst
        (λ b.
          InLoop (idx + 1) rest (take_next lua tables it idx b s1).0
            (take_next lua tables it idx b s1).1
          × ((take_next lua tables it idx b s1).0.kvp ≡ some (k, v)))
        (sym found)
        (
          record {
            key = k;
            item = v;
            on_stack = popped ∙ over_below (k ∷ []);
            table_at = at;
            key_at = ap some top;
            pair_read = read;
            counted = refl;
            to_come = more;
          },
          read,
        )

  -- One value above some others is removed by its index.
  remove_top :
      (xs : List Value) (x : Value) (s : State) (n : ℕ)
      → stack s ≡ xs ++ x ∷ []
      → n ≡ suc (length xs)
      → stack (remove lua (pos n) 1 s) ≡ xs
  remove_top xs x s n e m =
      let whole =
        remove_lem lua laws (pos n) xs (x ∷ []) [] s e (laws.absindex_pos n s ∙ ap pos m) in
      whole ∙ append-nil xs

  pub end_keyed :
      (it : TableIterator lua) (key : Value) (s : State)
      → stack s ≡ caller ++ t ∷ key ∷ []
      → it.keyidx ≡ some (suc (suc (length caller)))
      → it.tableidx ≡ suc (length caller)
      → stack (end_table lua tables it s) ≡ caller
  unfolding end_table below
  end_keyed it key s e at_key at =
      let size : suc (suc (length caller)) ≡ suc (length below) = omega (arith, size_below) in
      let s1 = remove lua (pos (suc (suc (length caller)))) 1 s in
      let key_gone : stack s1 ≡ below =
        remove_top below key s (suc (suc (length caller))) (e ∙ sym (over_below (key ∷ []))) size in
      rw at_key (remove_top caller t s1 it.tableidx key_gone at)

  pub end_table_ended :
      (it : TableIterator lua) (s : State) → AtEnd it s → stack (end_table lua tables it s) ≡ caller
  unfolding end_table
  end_table_ended it s h = rw h.key_at (remove_top caller t s it.tableidx h.on_stack h.table_at)

  step_back_lem :
      (it : TableIterator lua) (n : ℕ)
      → it.idx ≡ some n
      → step_back lua tables it ≡ record it { idx = some (n - 1) }
  unfolding step_back
  step_back_lem it n h = rw h refl

  step_back_end : (it : TableIterator lua) → it.idx ≡ none → step_back lua tables it ≡ it
  unfolding step_back
  step_back_end it h = rw h refl

  step_back_loop :
      (rest : List (Value × Value)) (kv : Value × Value) (it : TableIterator lua) (s : State)
      → InLoop (0 + 1) rest it s × (it.kvp ≡ some kv)
      → InLoop 0 rest (step_back lua tables it) s × ((step_back lua tables it).kvp ≡ some kv)
  step_back_loop rest kv it s (h, q) =
      subst (λ (x : TableIterator lua). InLoop 0 rest x s × (x.kvp ≡ some kv))
        (sym (step_back_lem it (0 + 1) h.counted))
        (
          record {
            key = h.key;
            item = h.item;
            on_stack = h.on_stack;
            table_at = h.table_at;
            key_at = h.key_at;
            pair_read = h.pair_read;
            counted = refl;
            to_come = h.to_come;
          },
          q,
        )

  -- The stack when the loop begins.
  nil_pushed :
      (s : State)
      → stack s ≡ caller
      → (stack (lua.push tables.nil (lua.push t s)) ≡ caller ++ t ∷ tables.nil ∷ [])
        × (lua.gettop (lua.push t s) ≡ suc (length caller))
  nil_pushed s e =
      let first : stack (lua.push t s) ≡ caller ++ t ∷ [] =
        laws.push_lem t s ∙ ap (λ (l : List Value). l ++ t ∷ []) e in
      (
        laws.push_lem tables.nil (lua.push t s)
            ∙ ap (λ (l : List Value). l ++ tables.nil ∷ []) first
            ∙ append_assoc caller (t ∷ []) (tables.nil ∷ []),
        laws.gettop_lem (lua.push t s)
            ∙ ap length first
            ∙ omega (arith, length-append caller (t ∷ [])),
      )

  abbrev begun : ℕ → TableIterator lua
  begun n = record { kvp = none; tableidx = n; keyidx = some 0; idx = some 0 }

  pub begin_lem :
      (entries : List (Value × Value)) (s : State)
      → stack s ≡ caller
      → tables.after t tables.nil ≡ entries
      → let (it, s') = begin_table lua tables t s in Stepped 0 entries it s'
  unfolding begin_table
  begin_lem [] s e h =
      let (pushed, top) = nil_pushed s e in
      let it = begun (lua.gettop (lua.push t s)) in
      let end = advance_end it 0 tables.nil (lua.push tables.nil (lua.push t s)) pushed top h in
      let it' = (advance lua tables it 0 (lua.push tables.nil (lua.push t s))).0 in
      subst
        (λ (x : TableIterator lua).
          AtEnd x (advance lua tables it 0 (lua.push tables.nil (lua.push t s))).1)
        (sym (step_back_end it' end.counted)) end
  begin_lem ((k, v) ∷ rest) s e h =
      let (pushed, top) = nil_pushed s e in
      let it = begun (lua.gettop (lua.push t s)) in
      let s2 = lua.push tables.nil (lua.push t s) in
      step_back_loop rest (k, v) (advance lua tables it 0 s2).0 (advance lua tables it 0 s2).1
        (advance_entry it 0 tables.nil k v rest s2 pushed top h)

  pub next_lem :
      (i : ℕ) (rest : List (Value × Value)) (it : TableIterator lua) (s : State)
      → InLoop i rest it s
      → let (it', s') = next_pair lua tables it s in Stepped (i + 1) rest it' s'
  unfolding next_pair
  next_lem i [] it s h = rw h.counted (advance_end it i h.key s h.on_stack h.table_at h.to_come)
  next_lem i ((k, v) ∷ rest) it s h =
      rw h.counted (advance_entry it i h.key k v rest s h.on_stack h.table_at h.to_come)
