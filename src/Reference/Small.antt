-- ===== src/Reference/Small.antt =====
-- A small Lua: two registries, number values where 0 is nil, keys that are taken in order.
use sol.Base.{
  ℕ, zero, suc, ◌≡◌, refl, sym, ap, ◌∙◌, arith, List, [], ◌∷◌, Option, none, some, Bool, true,
  false, ◌==◌, ◌&&◌, if◌then◌else◌, inl, inr, Bool-cases, ltb,
}
use sol.Reference.Lua.{Lua, IsLua, Pushes, Refers, RegistryKey, noref, refnil, at, value_of}

abbrev nth : List ℕ → ℕ → ℕ
nth [] k = 0
nth (x ∷ xs) zero = x
nth (x ∷ xs) (suc k) = nth xs k

abbrev snoc : List ℕ → ℕ → List ℕ
snoc [] v = v ∷ []
snoc (x ∷ xs) v = x ∷ snoc xs v

abbrev size : List ℕ → ℕ
size [] = 0
size (x ∷ xs) = suc (size xs)

abbrev clear : List ℕ → ℕ → List ℕ
clear [] k = []
clear (x ∷ xs) zero = 0 ∷ xs
clear (x ∷ xs) (suc k) = x ∷ clear xs k

nth-snoc : (xs : List ℕ) (v j : ℕ) → nth (snoc xs v) j ≡ (if size xs == j then v else nth xs j)
nth-snoc [] v zero = refl
nth-snoc [] v (suc j) = ground arith
nth-snoc (x ∷ xs) v zero = ground arith
nth-snoc (x ∷ xs) v (suc j) = ground (arith, nth-snoc xs v j)

nth-size : (xs : List ℕ) → nth xs (size xs) ≡ 0
nth-size [] = refl
nth-size (x ∷ xs) = nth-size xs

nth-clear : (xs : List ℕ) (k j : ℕ) → nth (clear xs k) j ≡ (if k == j then 0 else nth xs j)
nth-clear [] k j = ground arith
nth-clear (x ∷ xs) zero zero = refl
nth-clear (x ∷ xs) zero (suc j) = ground arith
nth-clear (x ∷ xs) (suc k) zero = ground arith
nth-clear (x ∷ xs) (suc k) (suc j) = ground (arith, nth-clear xs k j)

pub record Memory : Type 0 where
  pub stacks : ℕ → List ℕ
  pub keys : ℕ → List ℕ

abbrev pub group_of : ℕ → ℕ
group_of L = if ltb L 10 then 0 else 1

abbrev pub entry : ℕ → Option ℕ
entry x = if x == 0 then none else some x

abbrev pub put : ℕ → List ℕ → Memory → Memory
put L xs s = record s { stacks = λ t. if t == L then xs else s.stacks t }

abbrev pub write : ℕ → List ℕ → Memory → Memory
write g xs s = record s { keys = λ h. if g == h then xs else s.keys h }

abbrev pub push_value : ℕ → ℕ → Memory → Memory
push_value L v s = put L (v ∷ s.stacks L) s

abbrev pub load : ℕ → RegistryKey → Memory → Memory
load L noref s = push_value L 0 s
load L refnil s = push_value L 0 s
load L (at k) s = push_value L (nth (s.keys (group_of L)) k) s

abbrev pub move_top : ℕ → ℕ → List ℕ → Memory → Memory
move_top L T [] s = s
move_top L T (v ∷ xs) s = push_value T v (put L xs s)

abbrev pub store : ℕ → List ℕ → Memory → RegistryKey × Memory
store L [] s = (refnil, s)
store L (v ∷ xs) s =
    let g = group_of L in
    if v == 0
    then (refnil, put L xs s)
    else (at (size (s.keys g)), write g (snoc (s.keys g) v) (put L xs s))

abbrev pub free : ℕ → RegistryKey → Memory → Memory
free L noref s = s
free L refnil s = s
free L (at k) s = write (group_of L) (clear (s.keys (group_of L)) k) s

abbrev pub small_lua : Lua
small_lua = record {
  State = Memory;
  Value = ℕ;
  Index = ℕ;
  nil = 0;
  is_nil = λ v. v == 0;
  registry = group_of;
  main_thread_of = λ L. if L == 0 then 0 else if ltb L 10 then 1 else 10;
  stack = λ s t. s.stacks t;
  live = λ s g k. entry (nth (s.keys g) k);
  left_behind = λ s g k. nth (s.keys g) k;
  value_at = λ s L i. nth (s.stacks L) i;
  pushnil = λ L s. push_value L 0 s;
  pushvalue = λ L i s. push_value L (nth (s.stacks L) i) s;
  rawgeti = load;
  xmove = λ L T s. move_top L T (s.stacks L) s;
  ref = λ L s. store L (s.stacks L) s;
  unref = free;
}

push_value-Pushes : (L v : ℕ) (s : Memory) → Pushes small_lua L v s (push_value L v s)
push_value-Pushes L v s = record {
  top = ground arith;
  others = λ t e. rw e refl;
  registry_same = λ g k. refl;
}

of_entry : (x : ℕ) → (elim (entry x) [ none ↦ x | some v ↦ v ]) ≡ x
of_entry x = elim (Bool-cases (x == 0)) [ inl e ↦ rw e refl | inr e ↦ rw e refl ]

entry-if :
    (b : Bool) (v x : ℕ)
    → (v == 0) ≡ false
    → entry (if b then v else x) ≡ (if b then some v else entry x)
entry-if true v x n = rw n refl
entry-if false v x n = refl

entry-clear : (b : Bool) (x : ℕ) → entry (if b then 0 else x) ≡ (if b then none else entry x)
entry-clear true x = refl
entry-clear false x = refl

value_of_lem : (s : Memory) (g k : ℕ) → value_of small_lua s g k ≡ nth (s.keys g) k
value_of_lem s g k = of_entry (nth (s.keys g) k)

store_value :
    (L v : ℕ) (rest xs : List ℕ) (s : Memory)
    → xs ≡ v ∷ rest
    → (v == 0) ≡ false
    → (k : ℕ) × ((store L xs s).0 ≡ at k) × Refers small_lua L v s k (store L xs s).1
store_value L v rest xs s e n = (
  size (s.keys (group_of L)),
  rw (e, n) refl,
  record {
    fresh = rw (nth-size (s.keys (group_of L))) refl;
    holds = λ g j. elim (Bool-cases (group_of L == g)) [
      | inl o ↦
          let same : group_of L ≡ g = ground arith in
          let own : (group_of L == group_of L) ≡ true = ground arith in
          rw (e, n, sym same, own)
            (ap entry (nth-snoc (s.keys (group_of L)) v j)
              ∙ entry-if (size (s.keys (group_of L)) == j) v (nth (s.keys (group_of L)) j) n)
      | inr o ↦ rw (e, n, o) refl
    ];
  },
)

free_at :
    (L k g j : ℕ) (s : Memory)
    → entry (nth ((free L (at k) s).keys g) j)
      ≡ (if group_of L == g && k == j then none else entry (nth (s.keys g) j))
free_at L k g j s = elim (Bool-cases (group_of L == g)) [
  | inl o ↦
      let same : g ≡ group_of L = ground arith in
      let own : (group_of L == group_of L) ≡ true = ground arith in
      rw (same, own)
        (ap entry (nth-clear (s.keys (group_of L)) k j)
          ∙ entry-clear (k == j) (nth (s.keys (group_of L)) j))
  | inr o ↦ rw o refl
]

move_from_top :
    (L T v : ℕ) (rest xs : List ℕ) (s : Memory)
    → (L == T) ≡ false
    → xs ≡ v ∷ rest
    → ((move_top L T xs s).stacks L ≡ rest) × ((move_top L T xs s).stacks T ≡ v ∷ s.stacks T)
move_from_top L T v rest xs s ne e =
    let ne' : (T == L) ≡ false = ground arith in
    (rw (e, ne) (ground arith), rw (e, ne') (ground arith))

move_others :
    (L T t : ℕ) (xs : List ℕ) (s : Memory)
    → (t == L) ≡ false
    → (t == T) ≡ false
    → (move_top L T xs s).stacks t ≡ s.stacks t
move_others L T t [] s a b = refl
move_others L T t (v ∷ xs) s a b = rw (a, b) refl

move_keys : (L T g : ℕ) (xs : List ℕ) (s : Memory) → (move_top L T xs s).keys g ≡ s.keys g
move_keys L T g [] s = refl
move_keys L T g (v ∷ xs) s = refl

store_pops :
    (L v : ℕ) (rest xs : List ℕ) (s : Memory) → xs ≡ v ∷ rest → (store L xs s).1.stacks L ≡ rest
store_pops L v rest xs s e = elim (Bool-cases (v == 0)) [
  | inl o ↦ rw (e, o) (ground arith)
  | inr o ↦ rw (e, o) (ground arith)
]

store_others :
    (L t : ℕ) (xs : List ℕ) (s : Memory) → (t == L) ≡ false → (store L xs s).1.stacks t ≡ s.stacks t
store_others L t [] s e = refl
store_others L t (v ∷ xs) s e = elim (Bool-cases (v == 0)) [
  | inl o ↦ rw (o, e) refl
  | inr o ↦ rw (o, e) refl
]

store_nil :
    (L v : ℕ) (rest xs : List ℕ) (s : Memory)
    → xs ≡ v ∷ rest
    → (v == 0) ≡ true
    → ((store L xs s).0 ≡ refnil)
      × ((g k : ℕ) → entry (nth ((store L xs s).1.keys g) k) ≡ entry (nth (s.keys g) k))
store_nil L v rest xs s e o = (rw (e, o) refl, λ g k. rw (e, o) refl)

free_stack : (L t : ℕ) (key : RegistryKey) (s : Memory) → (free L key s).stacks t ≡ s.stacks t
free_stack L t noref s = refl
free_stack L t refnil s = refl
free_stack L t (at k) s = refl

load_at :
    (L k : ℕ) (s : Memory)
    → Pushes small_lua L (value_of small_lua s (group_of L) k) s (load L (at k) s)
load_at L k s = rw (value_of_lem s (group_of L) k) (push_value-Pushes L _ s)

entry_not_nil : (x v : ℕ) → entry x ≡ some v → (v == 0) ≡ false
entry_not_nil x v e = ground arith

pub small_lua-IsLua : IsLua small_lua
small_lua-IsLua = record {
  nil_is_nil = refl;
  main_registry = λ L. ground arith;
  main_thread_exists = λ L e. ground arith;
  live_not_nil = λ s g k v e. entry_not_nil (nth (s.keys g) k) v e;
  pushnil_lem = λ L s. push_value-Pushes L 0 s;
  pushvalue_lem = λ L i s. push_value-Pushes L _ s;
  rawgeti_noref = λ L s. push_value-Pushes L 0 s;
  rawgeti_refnil = λ L s. push_value-Pushes L 0 s;
  rawgeti_at = load_at;
  xmove_from = λ L T s v rest ne e. (move_from_top L T v rest _ s ne e).0;
  xmove_to = λ L T s v rest ne e. (move_from_top L T v rest _ s ne e).1;
  xmove_others = λ L T t s a b. move_others L T t _ s a b;
  xmove_registry = λ L T g k s. ap (λ (xs : List ℕ). entry (nth xs k)) (move_keys L T g _ s);
  ref_pops = λ L s v rest e. store_pops L v rest _ s e;
  ref_others = λ L t s e. store_others L t (s.stacks L) s e;
  ref_nil = λ L s v rest e o. store_nil L v rest _ s e o;
  ref_value = λ L s v rest e o. store_value L v rest _ s e o;
  unref_stack = free_stack;
  unref_at = λ L k g j s. free_at L k g j s;
  unref_noref = λ L g j s. refl;
  unref_refnil = λ L g j s. refl;
}
