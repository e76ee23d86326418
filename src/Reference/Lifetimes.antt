-- ===== src/Reference/Lifetimes.antt =====
-- Construction by copy and from the stack, and the end of references: the slots freed and taken.
use sol.Base.{
  ℕ, ◌≡◌, refl, ◌∙◌, arith, none, Bool, true, false, ◌==◌, if◌then◌else◌, ◌⊎◌, inl, inr, Bool-cases,
}
use sol.Reference.Lua.{Lua, IsLua, Pushes, RegistryKey, noref, refnil, at}
use sol.Reference.Handle.{
  key-cases, Reference, is_noref, deref, copy, stateless_copy, from_index, copy_construct, destroy,
}
use sol.Reference.Effects.{slot_of, Effect, Effect-none, stored, copy-Stored}
use sol.Reference.Copies.{picked, IsMade-of}
use sol.Reference.Outcomes.{IsUsable, IsAlive, Outcome, holding, made-Outcome, keyless-Outcome}

module _ (lua : Lua) (laws : IsLua lua) where
  open lua use {State, Value, Index, registry}

  -- `luaL_ref` of a nil that was pushed.
  stored_nil :
      (L : ℕ) (v : Value) (s s' : State)
      → Pushes lua L v s s'
      → lua.is_nil v ≡ true
      → ((lua.ref L s').0 ≡ refnil) × Effect lua s (lua.ref L s').1 none none lua.nil
  stored_nil L v s s' pushed e =
      let (key, same) = laws.ref_nil L s' v (lua.stack s L) pushed.top e in
      (
        key,
        record {
          stacks = λ t. elim (Bool-cases (t == L)) [
            | inl o ↦
                let same_thread : t ≡ L = ground arith in
                rw same_thread (laws.ref_pops L s' v (lua.stack s L) pushed.top)
            | inr o ↦ laws.ref_others L t s' o ∙ pushed.others t o
          ];
          keeps = λ g j o. same g j ∙ pushed.registry_same g j;
          adds = λ g j o. cc;
          fresh = λ g j o. cc;
        },
      )

  copied_key-Outcome :
      (L : ℕ) (key : RegistryKey) (s : State)
      → let o : Reference = record { luastate = L; ref = key } in
        (key ≡ noref) ⊎ (key ≡ refnil)
        → Outcome lua s (copy_construct lua o s).1 none (copy_construct lua o s).0
  unfolding copy_construct copy stateless_copy
  copied_key-Outcome L noref s e =
      keyless-Outcome lua laws s s none L noref (inl refl) (Effect-none lua laws s lua.nil)
  copied_key-Outcome L refnil s e =
      let (key, eff) = stored_nil L lua.nil s _ (laws.rawgeti_refnil L s) laws.nil_is_nil in
      rw key (keyless-Outcome lua laws s _ none L refnil (inr refl) eff)
  copied_key-Outcome L (at k) s e = elim e [ inl e ↦ cc | inr e ↦ cc ]

  -- The copy constructor takes a slot of its own when there is a value, and none when there is none.
  pub copy_construct-Outcome :
      (o : Reference) (s : State)
      → IsUsable o
      → IsAlive lua o s
      → Outcome lua s (copy_construct lua o s).1 none (copy_construct lua o s).0
  copy_construct-Outcome o s usable alive = elim (key-cases o.ref) [
    | inl e ↦ copied_key-Outcome o.luastate o.ref s (inl e)
    | inr (inl e) ↦ copied_key-Outcome o.luastate o.ref s (inr e)
    | inr (inr (k, e)) ↦
        let (v, h, _) = holding lua laws o s k e usable alive in
        let (j, key, eff) = copy-Stored lua laws o s v h in
        unfold copy_construct in
        rw key (
          made-Outcome lua laws s _ none _ v
            (IsMade-of lua laws o.luastate _ j s _ v refl (usable k e) eff))
  ]

  -- The constructor of a reference from a position of the stack frees no slot, takes at most one,
  -- which was not in use, leaves every other slot and all stacks as they were, and its reference has a
  -- state if it owns a slot.
  pub from_index-Outcome :
      (m : Bool) (L : ℕ) (index : Index) (s : State)
      → (L == 0) ≡ false
      → Outcome lua s (from_index lua m L index s).1 none (from_index lua m L index s).0
  unfolding from_index
  from_index-Outcome m L index s n =
      let pushed = laws.pushvalue_lem L index s in
      elim (Bool-cases (lua.is_nil (lua.value_at s L index))) [
        | inl e ↦
            let (key, eff) = stored_nil L _ s _ pushed e in
            rw key (keyless-Outcome lua laws s _ none _ refnil (inr refl) eff)
        | inr e ↦
            let (k, key, eff) = stored lua laws L _ s _ pushed e in
            let (same, usable) = picked lua laws m L n in
            rw key (
              made-Outcome lua laws s _ none _ _
                (IsMade-of lua laws _ (registry L) k s _ _ same usable eff))
      ]

  deref_key :
      (L : ℕ) (key : RegistryKey) (s : State) (v : Value)
      → let r : Reference = record { luastate = L; ref = key } in
        Effect lua s (if is_noref r.ref then s else deref lua r s) (slot_of lua r) none v
  unfolding deref is_noref
  deref_key L noref s v = Effect-none lua laws s v
  deref_key L refnil s v = record {
    stacks = λ t. laws.unref_stack L t refnil s;
    keeps = λ g j e. laws.unref_refnil L g j s;
    adds = λ g j e. cc;
    fresh = λ g j e. cc;
  }
  deref_key L (at k) s v = record {
    stacks = λ t. laws.unref_stack L t (at k) s;
    keeps = λ g j e. laws.unref_at L k g j s;
    adds = λ g j e. cc;
    fresh = λ g j e. cc;
  }

  stateless :
      (r : Reference) (s : State) (v : Value)
      → IsUsable r
      → (r.luastate == 0) ≡ true
      → Effect lua s s (slot_of lua r) none v
  stateless r s v usable z = elim (key-cases r.ref) [
    | inl e ↦ rw e (Effect-none lua laws s v)
    | inr (inl e) ↦ rw e (Effect-none lua laws s v)
    | inr (inr (k, e)) ↦ let n = usable k e in cc
  ]

  -- The destructor frees what the reference owns, and nothing else.
  pub destroy-Effect :
      (r : Reference) (s : State) (v : Value)
      → IsUsable r
      → Effect lua s (destroy lua r s) (slot_of lua r) none v
  unfolding destroy
  destroy-Effect r s v usable = elim (Bool-cases (r.luastate == 0)) [
    | inl z ↦ rw z (stateless r s v usable z)
    | inr z ↦ rw z (deref_key r.luastate r.ref s v)
  ]
