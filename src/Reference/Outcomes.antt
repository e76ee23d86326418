-- ===== src/Reference/Outcomes.antt =====
-- Copies, the constructor from the stack, and the end of references, for references of every kind:
-- the slot that each frees and the slot that its result owns.
use sol.Base.{ℕ, ◌≡◌, refl, Option, none, some, Bool, false, ◌==◌, ◌⊎◌, inl, inr}
use sol.Reference.Lua.{Lua, IsLua, RegistryKey, noref, refnil, at}
use sol.Reference.Handle.{
  by_key-noref, by_key-refnil, key-cases, Reference, release, copy_from, copy_assign,
}
use sol.Reference.Effects.{
  Slot, is_slot, slot_of, Effect, Effect-none, Effect-trans, release-Effect, Holds,
}
use sol.Reference.Copies.{IsMade, copy_from-IsMade}

abbrev pub IsUsable : Reference → Type 0
IsUsable r = (k : ℕ) → r.ref ≡ at k → (r.luastate == 0) ≡ false

-- What the key of a reference stands for is in the registry.
abbrev pub IsAlive : (lua : Lua) → Reference → lua.State → Type 0
IsAlive lua r s =
    (k : ℕ) → r.ref ≡ at k → (v : lua.Value) × (lua.live s (lua.registry r.luastate) k ≡ some v)

abbrev pub IsApart : Lua → Reference → Reference → Type 0
IsApart lua self r =
    (k : ℕ) → r.ref ≡ at k → is_slot (slot_of lua self) (lua.registry r.luastate) k ≡ false

-- From `s` to `s'` the slot `old` is freed and the slot of `r` taken; the stacks are as before.
pub record Outcome (lua : Lua) (s s' : lua.State) (old : Option Slot) (r : Reference) : Type 0 where
  pub value : lua.Value
  pub effect : Effect lua s s' old (slot_of lua r) value
  pub usable : IsUsable r

module _ (lua : Lua) (laws : IsLua lua) where
  open lua use {State, Value, Index, registry}

  pub holding :
      (r : Reference) (s : State) (k : ℕ)
      → r.ref ≡ at k
      → IsUsable r
      → IsAlive lua r s
      → (v : Value) × (h : Holds lua r v s) × (h.key ≡ k)
  holding r s k e usable alive =
      let (v, lives) = alive k e in
      (v, record { key = k; made = e; not_null = usable k e; alive = lives }, refl)

  pub made-Outcome :
      (s s' : State) (old : Option Slot) (r : Reference) (v : Value)
      → IsMade lua s s' old r v
      → Outcome lua s s' old r
  made-Outcome s s' old r v m = record {
    value = v;
    effect = m.effect;
    usable = λ k e. m.handle.not_null;
  }

  -- A reference without a key owns nothing.
  pub keyless-Outcome :
      (s s' : State) (old : Option Slot) (L : ℕ) (key : RegistryKey)
      → (key ≡ noref) ⊎ (key ≡ refnil)
      → Effect lua s s' old none lua.nil
      → Outcome lua s s' old (record { luastate = L; ref = key })
  keyless-Outcome s s' old L key (inl e) eff =
      rw e (record { value = lua.nil; effect = eff; usable = λ k e'. cc })
  keyless-Outcome s s' old L key (inr e) eff =
      rw e (record { value = lua.nil; effect = eff; usable = λ k e'. cc })

  pub copy_from-Outcome :
      (m rm : Bool) (self r : Reference) (s : State)
      → IsUsable r
      → IsAlive lua r s
      → Outcome lua s (copy_from lua m rm self r s).1 none (copy_from lua m rm self r s).0
  copy_from-Outcome m rm self r s usable alive = elim (key-cases r.ref) [
    | inl e ↦
        unfold copy_from in
        rw (by_key-noref r.ref _ _ _ e)
          (keyless-Outcome s s none _ noref (inl refl) (Effect-none lua laws s lua.nil))
    | inr (inl e) ↦
        unfold copy_from in
        rw (by_key-refnil r.ref _ _ _ e)
          (keyless-Outcome s s none _ refnil (inr refl) (Effect-none lua laws s lua.nil))
    | inr (inr (k, e)) ↦
        let (v, h, _) = holding r s k e usable alive in
        made-Outcome s _ none _ v (copy_from-IsMade lua laws m rm self r s v h)
  ]

  -- A reference that shares nothing with what is freed stays alive.
  pub IsAlive-Effect :
      (r : Reference) (s s' : State) (old : Option Slot) (w : Value)
      → ((k : ℕ) → r.ref ≡ at k → is_slot old (registry r.luastate) k ≡ false)
      → Effect lua s s' old none w
      → IsAlive lua r s
      → IsAlive lua r s'
  IsAlive-Effect r s s' old w apart eff alive k e =
      let (v, lives) = alive k e in
      (v, rw (eff.keeps (registry r.luastate) k refl, apart k e) lives)

  pub Outcome-after :
      (s s1 s2 : State) (old : Option Slot) (r : Reference)
      → ((v : Value) → Effect lua s s1 old none v)
      → Outcome lua s1 s2 none r
      → Outcome lua s s2 old r
  Outcome-after s s1 s2 old r a b = record {
    value = b.value;
    effect = Effect-trans lua laws s s1 s2 old _ b.value (a b.value) b.effect;
    usable = b.usable;
  }

  -- Copy assignment frees what the target owned and gives it a slot of its own, whatever the two
  -- references are, when they do not own the same slot.
  pub copy_assign-Outcome :
      (m rm : Bool) (self r : Reference) (s : State)
      → IsUsable r
      → IsAlive lua r s
      → IsApart lua self r
      → Outcome lua s
          (copy_assign lua m rm self r s).1
          (slot_of lua self)
          (copy_assign lua m rm self r s).0
  unfolding copy_assign
  copy_assign-Outcome m rm self r s usable alive apart =
      Outcome-after s (release lua self s) _ (slot_of lua self) _
        (λ v. release-Effect lua laws self s v)
        (copy_from-Outcome m rm self r _ usable
          (IsAlive-Effect r s _ _ lua.nil apart (release-Effect lua laws self s lua.nil) alive))
