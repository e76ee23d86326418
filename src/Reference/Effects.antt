-- ===== src/Reference/Effects.antt =====
-- What the steps of the references do to the registry and the stacks: the slot that they free, and
-- the slot that they take.
use sol.Base.{
  ℕ, ◌≡◌, refl, sym, ap, ◌∙◌, arith, List, ◌∷◌, Option, none, some, Bool, true, false, ◌==◌, ◌&&◌,
  if◌then◌else◌, inl, inr, Bool-cases,
}
use sol.Reference.Lua.{Lua, IsLua, Pushes, RegistryKey, noref, refnil, at, value_of}
use sol.Reference.Handle.{Reference, valid, release, deref, copy, stateless_copy, push}

-- A key of one registry.
pub record Slot : Type 0 where
  pub group : ℕ
  pub index : ℕ

abbrev pub is_slot : Option Slot → ℕ → ℕ → Bool
is_slot none g j = false
is_slot (some x) g j = x.group == g && x.index == j

abbrev pub key_slot : ℕ → RegistryKey → Option Slot
key_slot g noref = none
key_slot g refnil = none
key_slot g (at k) = some (record { group = g; index = k })

-- The slot that a reference owns.
abbrev pub slot_of : Lua → Reference → Option Slot
slot_of lua r = key_slot (lua.registry r.luastate) r.ref

-- From `s` to `s'` the stacks stay as they are, the slot `old` is freed, and the slot `new`, which was
-- not in use then, holds `v`.
pub record Effect (lua : Lua) (s s' : lua.State) (old new : Option Slot) (v : lua.Value)
    : Type 0 where
  pub stacks : (t : ℕ) → lua.stack s' t ≡ lua.stack s t
  pub keeps :
      (g j : ℕ)
      → is_slot new g j ≡ false
      → lua.live s' g j ≡ (if is_slot old g j then none else lua.live s g j)
  pub adds : (g j : ℕ) → is_slot new g j ≡ true → lua.live s' g j ≡ some v
  pub fresh :
      (g j : ℕ) → is_slot new g j ≡ true → (if is_slot old g j then none else lua.live s g j) ≡ none

-- A handle that holds `v` in a key of its own.
pub record Holds (lua : Lua) (r : Reference) (v : lua.Value) (s : lua.State) : Type 0 where
  pub key : ℕ
  pub made : r.ref ≡ at key
  pub not_null : (r.luastate == 0) ≡ false
  pub alive : lua.live s (lua.registry r.luastate) key ≡ some v

module _ (lua : Lua) (laws : IsLua lua) where
  open lua use {State, Value, registry}

  pub Effect-none : (s : State) (v : Value) → Effect lua s s none none v
  Effect-none s v = record {
    stacks = λ t. refl;
    keeps = λ g j e. refl;
    adds = λ g j e. cc;
    fresh = λ g j e. cc;
  }

  pub release_key :
      (L : ℕ) (key : RegistryKey) (s : State) (v : Value)
      → let r : Reference = record { luastate = L; ref = key } in
        Effect lua s (release lua r s) (slot_of lua r) none v
  unfolding release valid deref
  release_key L noref s v = Effect-none s v
  release_key L refnil s v = Effect-none s v
  release_key L (at k) s v = record {
    stacks = λ t. laws.unref_stack L t (at k) s;
    keeps = λ g j e. laws.unref_at L k g j s;
    adds = λ g j e. cc;
    fresh = λ g j e. cc;
  }

  -- `if (valid()) deref();` frees what the reference owns.
  pub release-Effect :
      (r : Reference) (s : State) (v : Value)
      → Effect lua s (release lua r s) (slot_of lua r) none v
  release-Effect r s v = release_key r.luastate r.ref s v

  pub Effect-trans :
      (s s1 s2 : State) (old new : Option Slot) (v : Value)
      → Effect lua s s1 old none v
      → Effect lua s1 s2 none new v
      → Effect lua s s2 old new v
  Effect-trans s s1 s2 old new v a b = record {
    stacks = λ t. b.stacks t ∙ a.stacks t;
    keeps = λ g j e. b.keeps g j e ∙ a.keeps g j refl;
    adds = b.adds;
    fresh = λ g j e. sym (a.keeps g j refl) ∙ b.fresh g j e;
  }

  -- A value pushed and then stored by `luaL_ref`.
  module _ (L : ℕ) (v : Value) (s s' : State) (pushed : Pushes lua L v s s')
      (some_value : lua.is_nil v ≡ false) where
    abbrev Stored : Type 0
    Stored =
        (k : ℕ) × ((lua.ref L s').0 ≡ at k)
        × Effect lua s (lua.ref L s').1 none (some (record { group = registry L; index = k })) v

    stored_stacks : (t : ℕ) → lua.stack (lua.ref L s').1 t ≡ lua.stack s t
    stored_stacks t = elim (Bool-cases (t == L)) [
      | inl e ↦
          let same : t ≡ L = ground arith in
          rw same (laws.ref_pops L s' v (lua.stack s L) pushed.top)
      | inr e ↦ laws.ref_others L t s' e ∙ pushed.others t e
    ]

    pub stored : Stored
    stored =
        let (k, key, refers) = laws.ref_value L s' v (lua.stack s L) pushed.top some_value in
        (
          k,
          key,
          record {
            stacks = stored_stacks;
            keeps = λ g j e. rw (refers.holds g j, e) (pushed.registry_same g j);
            adds = λ g j e. rw (refers.holds g j, e) refl;
            fresh = λ g j e.
                let same_group : g ≡ registry L = ground arith in
                let same_index : j ≡ k = ground arith in
                rw (same_group, same_index)
                  (sym (pushed.registry_same (registry L) k) ∙ refers.fresh);
          },
        )

  own-Pushes :
      (r : Reference) (s : State) (v : Value)
      → Holds lua r v s
      → Pushes lua r.luastate v s (lua.rawgeti r.luastate r.ref s)
  own-Pushes r s v h =
      let same : value_of lua s (registry r.luastate) h.key ≡ v = rw (h.alive, value_of) refl in
      simp h.made (rw same at (laws.rawgeti_at r.luastate h.key s))

  -- A value on one stack, moved to another one, was pushed there.
  moved-Pushes :
      (L T : ℕ) (v : Value) (s s' : State)
      → (T == L) ≡ false
      → Pushes lua L v s s'
      → Pushes lua T v s (lua.xmove L T s')
  moved-Pushes L T v s s' ne p =
      let ne' : (L == T) ≡ false = ground arith in
      let arrives = laws.xmove_to L T s' v (lua.stack s L) ne' p.top in
      record {
        top = arrives ∙ ap (λ (xs : List Value). v ∷ xs) (p.others T ne);
        others = λ t e. elim (Bool-cases (t == L)) [
          | inl e' ↦
              let same : t ≡ L = ground arith in
              rw same (laws.xmove_from L T s' v (lua.stack s L) ne' p.top)
          | inr e' ↦ laws.xmove_others L T t s' e' e ∙ p.others t e'
        ];
        registry_same = λ g k. laws.xmove_registry L T g k s' ∙ p.registry_same g k;
      }

  -- `push` puts the value of a handle on the stack of any thread.
  pub push-Pushes :
      (L : ℕ) (r : Reference) (s : State) (v : Value)
      → Holds lua r v s
      → Pushes lua L v s (push lua L r s)
  push-Pushes L r s v h = elim (Bool-cases (L == r.luastate)) [
    | inl e ↦
        let same : L ≡ r.luastate = ground arith in
        unfold push in rw (h.not_null, e) (rw same (own-Pushes r s v h))
    | inr e ↦
        unfold push in rw (h.not_null, e) (moved-Pushes r.luastate L v s _ e (own-Pushes r s v h))
  ]

  -- `copy` stores the value of a handle once more.
  pub copy-Stored :
      (r : Reference) (s : State) (v : Value)
      → Holds lua r v s
      → (k : ℕ) × ((copy lua r s).0 ≡ at k)
        × Effect lua s
            (copy lua r s).1
            none
            (some (record { group = registry r.luastate; index = k }))
            v
  copy-Stored r s v h =
      let plain : copy lua r s ≡ lua.ref r.luastate (lua.rawgeti r.luastate r.ref s) =
        unfold copy stateless_copy in rw h.made refl in
      rw plain (stored r.luastate v s _ (own-Pushes r s v h) (laws.live_not_nil s _ _ v h.alive))
