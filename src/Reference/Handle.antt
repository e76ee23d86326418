-- ===== src/Reference/Handle.antt =====
-- reference.hpp: `stateless_reference` and `basic_reference`. `main_only` is the template argument of
-- the reference that is written, `r_main_only` that of the one that is read.
use sol.Base.{◌≡◌, refl, ℕ, Bool, true, false, not, ◌==◌, ◌&&◌, ◌||◌, if◌then◌else◌, ◌⊎◌, inl, inr}
use sol.Reference.Lua.{Lua, RegistryKey, noref, refnil, at}

pub record Reference : Type 0 where
  pub luastate : ℕ
  pub ref : RegistryKey

abbrev pub empty : Reference
empty = record { luastate = 0; ref = noref }

unfoldable pub is_noref : RegistryKey → Bool
is_noref noref = true
is_noref _ = false

unfoldable pub valid : RegistryKey → Bool
valid noref = false
valid refnil = false
valid (at k) = true

-- The tests for LUA_NOREF and LUA_REFNIL that the copies begin with.
unfoldable pub by_key {ℓ} : {A : Type ℓ} → RegistryKey → A → A → A → A
by_key noref a b c = a
by_key refnil a b c = b
by_key (at k) a b c = c

pub by_key-at {ℓ} :
    {A : Type ℓ} (key : RegistryKey) (k : ℕ) (a b c : A) → key ≡ at k → by_key key a b c ≡ c
unfolding by_key
by_key-at key k a b c e = rw e refl

pub by_key-noref {ℓ} :
    {A : Type ℓ} (key : RegistryKey) (a b c : A) → key ≡ noref → by_key key a b c ≡ a
unfolding by_key
by_key-noref key a b c e = rw e refl

pub by_key-refnil {ℓ} :
    {A : Type ℓ} (key : RegistryKey) (a b c : A) → key ≡ refnil → by_key key a b c ≡ b
unfolding by_key
by_key-refnil key a b c e = rw e refl

pub key-cases : (key : RegistryKey) → (key ≡ noref) ⊎ ((key ≡ refnil) ⊎ ((k : ℕ) × (key ≡ at k)))
key-cases noref = inl refl
key-cases refnil = inr (inl refl)
key-cases (at k) = inr (inr (k, refl))

module _ (lua : Lua) where
  open lua use {State, Value, Index, registry}

  -- `detail::xmovable`, where the registries' addresses are compared.
  unfoldable pub xmovable : ℕ → ℕ → Bool
  xmovable leftL rightL =
      if rightL == 0 || leftL == 0 || leftL == rightL
      then false
      else registry leftL == registry rightL

  -- Lua 5.2 and later.
  unfoldable pub main_thread : ℕ → ℕ → ℕ
  main_thread L backup = if L == 0 then backup else lua.main_thread_of L

  unfoldable pub pick_main_thread : Bool → ℕ → ℕ → ℕ
  pick_main_thread b L backup = if b then main_thread L backup else L

  -- `stateless_reference::copy`, with its `push`.
  unfoldable pub stateless_copy : ℕ → RegistryKey → State → RegistryKey × State
  stateless_copy L noref s = (noref, s)
  stateless_copy L key s = lua.ref L (lua.rawgeti L key s)

  unfoldable pub deref : Reference → State → State
  deref r s = lua.unref r.luastate r.ref s

  unfoldable pub copy : Reference → State → RegistryKey × State
  copy r s = stateless_copy r.luastate r.ref s

  -- `basic_reference::push`.
  unfoldable pub push : ℕ → Reference → State → State
  push L r s =
      let own = lua.rawgeti r.luastate r.ref s in
      if r.luastate == 0
      then lua.pushnil L s
      else if not (L == r.luastate)
      then lua.xmove r.luastate L own
      else own

  -- `if (valid()) deref();`
  unfoldable pub release : Reference → State → State
  release r s = if valid r.ref then deref r s else s

  -- `r.push(L); luaL_ref(L, LUA_REGISTRYINDEX)`
  unfoldable pub ref_pushed : ℕ → Reference → State → RegistryKey × State
  ref_pushed L r s = lua.ref L (push L r s)

  -- The part of `copy_assign` behind the release, by the reference that is read.
  unfoldable pub copy_from : Bool → Bool → Reference → Reference → State → Reference × State
  copy_from main_only r_main_only self r s =
      let picked = pick_main_thread (main_only && not r_main_only) r.luastate r.luastate in
      let (key, s') = ref_pushed self.luastate r s in
      let (key', s'') = copy r s in
      by_key r.ref (record { luastate = r.luastate; ref = noref }, s)
        (record { luastate = picked; ref = refnil }, s)
        (if xmovable self.luastate r.luastate
          then (record self { ref = key }, s')
          else (record { luastate = picked; ref = key' }, s''))

  unfoldable pub copy_assign : Bool → Bool → Reference → Reference → State → Reference × State
  copy_assign main_only r_main_only self r s =
      copy_from main_only r_main_only self r (release self s)

  -- `move_assign` leaves what is read empty, unless the value went through the stack.
  unfoldable pub move_from :
      Bool → Bool → Reference → Reference → State → Reference × Reference × State
  move_from main_only r_main_only self r s =
      let picked = pick_main_thread (main_only && not r_main_only) r.luastate r.luastate in
      let (key, s') = ref_pushed self.luastate r s in
      by_key r.ref (record { luastate = r.luastate; ref = noref }, r, s)
        (record { luastate = picked; ref = refnil }, r, s)
        (if xmovable self.luastate r.luastate
          then (record self { ref = key }, r, s')
          else (record { luastate = picked; ref = r.ref }, empty, s))

  unfoldable pub move_assign :
      Bool → Bool → Reference → Reference → State → Reference × Reference × State
  move_assign main_only r_main_only self r s =
      move_from main_only r_main_only self r (release self s)

  -- The constructor from a stack position.
  unfoldable pub from_index : Bool → ℕ → Index → State → Reference × State
  from_index main_only L index s =
      let (key, s') = lua.ref L (lua.pushvalue L index s) in
      (record { luastate = pick_main_thread main_only L L; ref = key }, s')

  -- The constructor for a state from a reference of whatever state.
  unfoldable pub from_copy : Bool → ℕ → Reference → State → Reference × State
  from_copy main_only L r s =
      let luastate = pick_main_thread main_only L L in
      let (key, s') = ref_pushed luastate r s in
      let (key', s'') = copy r s in
      by_key r.ref (record { luastate = luastate; ref = noref }, s)
        (record { luastate = luastate; ref = refnil }, s)
        (if luastate == 0
          then (record { luastate = luastate; ref = noref }, s)
          else if xmovable luastate r.luastate
          then (record { luastate = luastate; ref = key }, s')
          else (record { luastate = luastate; ref = key' }, s''))

  -- `basic_reference(const basic_reference&)`.
  unfoldable pub copy_construct : Reference → State → Reference × State
  copy_construct o s = let (key, s') = copy o s in (record { luastate = o.luastate; ref = key }, s')

  -- `basic_reference(basic_reference&&)`, which empties what it reads.
  unfoldable pub move_construct : Reference → Reference × Reference
  move_construct o = (o, empty)

  unfoldable pub destroy : Reference → State → State
  destroy r s = if r.luastate == 0 || is_noref r.ref then s else deref r s

  -- `operator=(const lua_nil_t&)`.
  unfoldable pub assign_nil : Reference → State → Reference × State
  assign_nil self s = (empty, release self s)
