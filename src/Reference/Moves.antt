-- ===== src/Reference/Moves.antt =====
-- Move assignment and move construction: the slot changes hands, or the value is stored once more in
-- the target's state and the source stays as it is.
use sol.Base.{
  ◌≡◌, refl, Option, none, Bool, true, false, not, ◌==◌, ◌&&◌, ◌⊎◌, inl, inr, Bool-cases, ◌∙◌, sym,
  ℕ,
}
use sol.Reference.Lua.{Lua, IsLua, RegistryKey, noref, refnil, at}
use sol.Reference.Handle.{
  by_key-at, by_key-noref, by_key-refnil, key-cases, Reference, empty, release, ref_pushed,
  xmovable, pick_main_thread, move_from, move_assign,
}
use sol.Reference.Effects.{
  Slot, is_slot, slot_of, Holds, Effect, Effect-none, Effect-trans, release-Effect,
}
use sol.Reference.Copies.{IsMade, picked, xmovable-registry, pushed-IsMade}
use sol.Reference.Outcomes.{
  IsUsable, IsAlive, IsApart, Outcome, holding, made-Outcome, keyless-Outcome, IsAlive-Effect,
}

-- The target owns what the source owned, and the source is empty.
pub record Takes (lua : Lua) (s s' : lua.State) (old : Option Slot) (r self' r' : Reference)
    : Type 0 where
  pub effect : (v : lua.Value) → Effect lua s s' old none v
  pub slot : slot_of lua self' ≡ slot_of lua r
  pub usable : IsUsable self'
  pub emptied : r' ≡ empty

-- The source has no value, and the target gets none; or it is nil, and so is the target.
pub record Follows (lua : Lua) (s s' : lua.State) (old : Option Slot) (r self' r' : Reference)
    : Type 0 where
  pub keyless : (r.ref ≡ noref) ⊎ (r.ref ≡ refnil)
  pub same_ref : self'.ref ≡ r.ref
  pub effect : (v : lua.Value) → Effect lua s s' old none v
  pub kept : r' ≡ r

-- The target holds the source's value in a slot that was not in use, and in its own state.
pub record Stores (lua : Lua) (s s' : lua.State) (old : Option Slot) (self r self' r' : Reference)
    : Type 0 where
  pub value : lua.Value
  pub held : Holds lua r value s
  pub made : IsMade lua s s' old self' value
  pub same_state : self'.luastate ≡ self.luastate
  pub kept : r' ≡ r

-- Move assignment by the kind of the source and the threads of the two.
abbrev pub Moves :
    (lua : Lua)
    → lua.State
    → lua.State
    → Option Slot
    → Reference
    → Reference
    → Reference
    → Reference
    → Type 0
Moves lua s s' old self r self' r' =
    Follows lua s s' old r self' r'
    ⊎ ((xmovable lua self.luastate r.luastate ≡ true) × Stores lua s s' old self r self' r')
    ⊎ ((xmovable lua self.luastate r.luastate ≡ false)
        × ((k : ℕ) × (r.ref ≡ at k))
        × Takes lua s s' old r self' r')

module _ (lua : Lua) (laws : IsLua lua) where
  open lua use {State, Value, registry}

  MovesFrom : Bool → Bool → Reference → Reference → State → Type 0
  MovesFrom m rm self r s =
      let (self', r', s') = move_from lua m rm self r s in Moves lua s s' none self r self' r'

  move_from-pushed :
      (m rm : Bool) (self r : Reference) (s : State) (k : ℕ)
      → r.ref ≡ at k
      → xmovable lua self.luastate r.luastate ≡ true
      → let (key, s') = ref_pushed lua self.luastate r s in
        move_from lua m rm self r s ≡ (record self { ref = key }, r, s')
  unfolding move_from
  move_from-pushed m rm self r s k h e = by_key-at r.ref k _ _ _ h ∙ rw e refl

  move_from-taken :
      (m rm : Bool) (self r : Reference) (s : State) (k : ℕ)
      → r.ref ≡ at k
      → xmovable lua self.luastate r.luastate ≡ false
      → move_from lua m rm self r s ≡ (
        record { luastate = pick_main_thread lua (m && not rm) r.luastate r.luastate; ref = r.ref },
        empty,
        s,
      )
  unfolding move_from
  move_from-taken m rm self r s k h e = by_key-at r.ref k _ _ _ h ∙ rw e refl

  taken-Takes :
      (b : Bool) (r : Reference) (s : State)
      → (r.luastate == 0) ≡ false
      → Takes lua s s none r
          (record { luastate = pick_main_thread lua b r.luastate r.luastate; ref = r.ref })
          empty
  taken-Takes b r s n =
      let (same, usable) = picked lua laws b r.luastate n in
      record {
        effect = λ v. Effect-none lua laws s v;
        slot = rw same refl;
        usable = λ k e. usable;
        emptied = refl;
      }

  keyless-Follows :
      (L : ℕ) (r : Reference) (s : State) (key : RegistryKey)
      → (r.ref ≡ noref) ⊎ (r.ref ≡ refnil)
      → r.ref ≡ key
      → Follows lua s s none r (record { luastate = L; ref = key }) r
  keyless-Follows L r s key none_there e = record {
    keyless = none_there;
    same_ref = sym e;
    effect = λ v. Effect-none lua laws s v;
    kept = refl;
  }

  move_from-MovesFrom :
      (m rm : Bool) (self r : Reference) (s : State)
      → IsUsable r
      → IsAlive lua r s
      → MovesFrom m rm self r s
  unfolding MovesFrom
  move_from-MovesFrom m rm self r s usable alive = elim (key-cases r.ref) [
    | inl e ↦
        unfold move_from in
        rw (by_key-noref r.ref _ _ _ e) (inl (keyless-Follows _ r s noref (inl e) e))
    | inr (inl e) ↦
        unfold move_from in
        rw (by_key-refnil r.ref _ _ _ e) (inl (keyless-Follows _ r s refnil (inr e) e))
    | inr (inr (k, e)) ↦ elim (Bool-cases (xmovable lua self.luastate r.luastate)) [
      | inl x ↦
          let (v, h, _) = holding lua laws r s k e usable alive in
          let n = (xmovable-registry lua laws self.luastate r.luastate x).1 in
          rw (move_from-pushed m rm self r s k e x) (
            inr (
              inl (
                x,
                record {
                  value = v;
                  held = h;
                  made = pushed-IsMade lua laws self.luastate r s v n h;
                  same_state = refl;
                  kept = refl;
                },
              )))
      | inr x ↦
          rw (move_from-taken m rm self r s k e x)
            (inr (inr (x, (k, e), taken-Takes _ r s (usable k e))))
    ]
  ]

  -- What is held behind a release was held before.
  Holds-before :
      (s s1 : State) (old : Option Slot) (r : Reference) (v : Value)
      → Effect lua s s1 old none lua.nil
      → Holds lua r v s1
      → Holds lua r v s
  Holds-before s s1 old r v a h = record {
    key = h.key;
    made = h.made;
    not_null = h.not_null;
    alive =
        let there = sym (a.keeps (registry r.luastate) h.key refl) ∙ h.alive in
        elim (Bool-cases (is_slot old (registry r.luastate) h.key)) [ inl e ↦ cc | inr e ↦ cc ];
  }

  Moves-after :
      (s s1 s2 : State) (old : Option Slot) (self r self' r' : Reference)
      → ((v : Value) → Effect lua s s1 old none v)
      → Moves lua s1 s2 none self r self' r'
      → Moves lua s s2 old self r self' r'
  Moves-after s s1 s2 old self r self' r' a (inl f) = inl (record {
    keyless = f.keyless;
    same_ref = f.same_ref;
    effect = λ v. Effect-trans lua laws s s1 s2 old none v (a v) (f.effect v);
    kept = f.kept;
  })
  Moves-after s s1 s2 old self r self' r' a (inr (inl (x, m))) = inr (
      inl (
        x,
        record {
          value = m.value;
          held = Holds-before s s1 old r m.value (a lua.nil) m.held;
          made = record {
            handle = m.made.handle;
            effect = Effect-trans lua laws s s1 s2 old _ m.value (a m.value) m.made.effect;
          };
          same_state = m.same_state;
          kept = m.kept;
        },
      ))
  Moves-after s s1 s2 old self r self' r' a (inr (inr (x, k, t))) = inr (
      inr (
        x,
        k,
        record {
          effect = λ v. Effect-trans lua laws s s1 s2 old none v (a v) (t.effect v);
          slot = t.slot;
          usable = t.usable;
          emptied = t.emptied;
        },
      ))

  -- In each case the target owns what the outcome says, and the source is kept or empty.
  pub Moves-Outcome :
      (s s' : State) (old : Option Slot) (self r self' r' : Reference)
      → Moves lua s s' old self r self' r'
      → (Outcome lua s s' old self' × (r' ≡ r)) ⊎ Takes lua s s' old r self' r'
  Moves-Outcome s s' old self r self' r' (inl f) =
      let no_key : (self'.ref ≡ noref) ⊎ (self'.ref ≡ refnil) = elim f.keyless [
        | inl e ↦ inl (f.same_ref ∙ e)
        | inr e ↦ inr (f.same_ref ∙ e)
      ] in
      inl (
        keyless-Outcome lua laws s s' old self'.luastate self'.ref no_key (f.effect lua.nil),
        f.kept,
      )
  Moves-Outcome s s' old self r self' r' (inr (inl (x, m))) =
      inl (made-Outcome lua laws s s' old self' m.value m.made, m.kept)
  Moves-Outcome s s' old self r self' r' (inr (inr (x, k, t))) = inr t

  -- Move assignment between references that do not own the same slot frees what the target owned. If
  -- the source has no key, the target gets its kind of emptiness, and no slot. If their threads are
  -- different ones of one state, the target holds the source's value in its own state, in a slot that was
  -- not in use, and the source stays as it is. Else the target owns what the source owned, which is left
  -- empty. All stacks are as before.
  pub move_assign-Moves :
      (m rm : Bool) (self r : Reference) (s : State)
      → IsUsable r
      → IsAlive lua r s
      → IsApart lua self r
      → let (self', r', s') = move_assign lua m rm self r s in
        Moves lua s s' (slot_of lua self) self r self' r'
  unfolding move_assign MovesFrom
  move_assign-Moves m rm self r s usable alive apart =
      let released = release-Effect lua laws self s in
      Moves-after s (release lua self s) _ (slot_of lua self) self r _ _ released (
        move_from-MovesFrom m rm self r (release lua self s) usable
          (IsAlive-Effect lua laws r s _ _ lua.nil apart (released lua.nil) alive))
