-- ===== src/Reference/Lua.antt =====
-- What the references rely on of Lua, with the behaviour that its manual states. A `lua_State *` is a
-- number, 0 is `nullptr`, and threads of one state share a registry.
use sol.Base.{ℕ, ◌≡◌, List, ◌∷◌, Option, none, some, Bool, true, false, ◌==◌, ◌&&◌, if◌then◌else◌}

-- A key of the registry as an `int`: LUA_NOREF, LUA_REFNIL, or a key that `luaL_ref` made.
pub data RegistryKey : Type 0 where
  noref refnil : RegistryKey
  at : ℕ → RegistryKey

pub record Lua : Type 1 where
  pub State : Type 0
  pub Value : Type 0
  -- Positions of a stack, as `lua_pushvalue` takes them.
  pub Index : Type 0
  pub nil : Value
  pub is_nil : Value → Bool
  pub registry : ℕ → ℕ
  pub main_thread_of : ℕ → ℕ
  -- What can be seen of a state: the stacks, top first, and the registry's keys that are in use.
  pub stack : State → ℕ → List Value
  pub live : State → ℕ → ℕ → Option Value
  -- What the registry holds at a key that is not in use.
  pub left_behind : State → ℕ → ℕ → Value
  pub value_at : State → ℕ → Index → Value
  pub pushnil : ℕ → State → State
  pub pushvalue : ℕ → Index → State → State
  pub rawgeti : ℕ → RegistryKey → State → State
  pub xmove : ℕ → ℕ → State → State
  pub ref : ℕ → State → RegistryKey × State
  pub unref : ℕ → RegistryKey → State → State

-- `push L v s s'`: the value `v` is on top of the stack of `L`, and nothing else has changed.
pub record Pushes (lua : Lua) (L : ℕ) (v : lua.Value) (s s' : lua.State) : Type 0 where
  pub top : lua.stack s' L ≡ v ∷ lua.stack s L
  pub others : (t : ℕ) → (t == L) ≡ false → lua.stack s' t ≡ lua.stack s t
  pub registry_same : (g k : ℕ) → lua.live s' g k ≡ lua.live s g k

-- The value behind a key.
abbrev pub value_of : (lua : Lua) → lua.State → ℕ → ℕ → lua.Value
value_of lua s g k = elim (lua.live s g k) [ none ↦ lua.left_behind s g k | some v ↦ v ]

-- `luaL_ref` of a value that is not nil: it is popped, and a key that was not in use holds it.
pub record Refers (lua : Lua) (L : ℕ) (v : lua.Value) (s : lua.State) (k : ℕ) (s' : lua.State)
    : Type 0 where
  pub fresh : lua.live s (lua.registry L) k ≡ none
  pub holds :
      (g j : ℕ)
      → lua.live s' g j ≡ (if lua.registry L == g && k == j then some v else lua.live s g j)

-- Lua's manual on the functions that the references call.
pub record IsLua (lua : Lua) : Type 0 where
  pub nil_is_nil : lua.is_nil lua.nil ≡ true
  pub main_registry : (L : ℕ) → lua.registry (lua.main_thread_of L) ≡ lua.registry L
  pub main_thread_exists : (L : ℕ) → (L == 0) ≡ false → (lua.main_thread_of L == 0) ≡ false
  pub live_not_nil :
      (s : lua.State) (g k : ℕ) (v : lua.Value) → lua.live s g k ≡ some v → lua.is_nil v ≡ false
  pub pushnil_lem : (L : ℕ) (s : lua.State) → Pushes lua L lua.nil s (lua.pushnil L s)
  pub pushvalue_lem :
      (L : ℕ) (i : lua.Index) (s : lua.State)
      → Pushes lua L (lua.value_at s L i) s (lua.pushvalue L i s)
  pub rawgeti_noref : (L : ℕ) (s : lua.State) → Pushes lua L lua.nil s (lua.rawgeti L noref s)
  pub rawgeti_refnil : (L : ℕ) (s : lua.State) → Pushes lua L lua.nil s (lua.rawgeti L refnil s)
  pub rawgeti_at :
      (L k : ℕ) (s : lua.State)
      → Pushes lua L (value_of lua s (lua.registry L) k) s (lua.rawgeti L (at k) s)
  -- The top of one stack moves to another one.
  pub xmove_from :
      (L T : ℕ) (s : lua.State) (v : lua.Value) (rest : List lua.Value)
      → (L == T) ≡ false
      → lua.stack s L ≡ v ∷ rest
      → lua.stack (lua.xmove L T s) L ≡ rest
  pub xmove_to :
      (L T : ℕ) (s : lua.State) (v : lua.Value) (rest : List lua.Value)
      → (L == T) ≡ false
      → lua.stack s L ≡ v ∷ rest
      → lua.stack (lua.xmove L T s) T ≡ v ∷ lua.stack s T
  pub xmove_others :
      (L T t : ℕ) (s : lua.State)
      → (t == L) ≡ false
      → (t == T) ≡ false
      → lua.stack (lua.xmove L T s) t ≡ lua.stack s t
  pub xmove_registry :
      (L T g k : ℕ) (s : lua.State) → lua.live (lua.xmove L T s) g k ≡ lua.live s g k
  -- `luaL_ref` pops the top in any case.
  pub ref_pops :
      (L : ℕ) (s : lua.State) (v : lua.Value) (rest : List lua.Value)
      → lua.stack s L ≡ v ∷ rest
      → lua.stack (lua.ref L s).1 L ≡ rest
  pub ref_others :
      (L t : ℕ) (s : lua.State) → (t == L) ≡ false → lua.stack (lua.ref L s).1 t ≡ lua.stack s t
  pub ref_nil :
      (L : ℕ) (s : lua.State) (v : lua.Value) (rest : List lua.Value)
      → lua.stack s L ≡ v ∷ rest
      → lua.is_nil v ≡ true
      → ((lua.ref L s).0 ≡ refnil) × ((g k : ℕ) → lua.live (lua.ref L s).1 g k ≡ lua.live s g k)
  pub ref_value :
      (L : ℕ) (s : lua.State) (v : lua.Value) (rest : List lua.Value)
      → lua.stack s L ≡ v ∷ rest
      → lua.is_nil v ≡ false
      → (k : ℕ) × ((lua.ref L s).0 ≡ at k) × Refers lua L v s k (lua.ref L s).1
  -- `luaL_unref` frees its key, and does nothing for the two special keys.
  pub unref_stack :
      (L t : ℕ) (key : RegistryKey) (s : lua.State)
      → lua.stack (lua.unref L key s) t ≡ lua.stack s t
  pub unref_at :
      (L k g j : ℕ) (s : lua.State)
      → lua.live (lua.unref L (at k) s) g j
        ≡ (if lua.registry L == g && k == j then none else lua.live s g j)
  pub unref_noref :
      (L g j : ℕ) (s : lua.State) → lua.live (lua.unref L noref s) g j ≡ lua.live s g j
  pub unref_refnil :
      (L g j : ℕ) (s : lua.State) → lua.live (lua.unref L refnil s) g j ≡ lua.live s g j
