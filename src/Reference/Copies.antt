-- ===== src/Reference/Copies.antt =====
-- Copies, moves and the end of references: each takes one slot of its own and frees the one before.
use sol.Base.{
  ℕ, ◌≡◌, refl, ◌∙◌, arith, Option, none, some, Bool, true, false, not, ◌==◌, ◌&&◌, inl, inr,
  Bool-cases,
}
use sol.Reference.Lua.{Lua, IsLua, at}
use sol.Reference.Handle.{
  by_key-at, Reference, release, copy, ref_pushed, xmovable, pick_main_thread, main_thread,
  copy_from, copy_assign,
}
use sol.Reference.Effects.{
  Slot, is_slot, slot_of, Effect, Effect-trans, release-Effect, stored, Holds, push-Pushes,
  copy-Stored,
}

-- The new reference holds `v`; the slot `old` is freed, the new reference's slot is taken, the stacks
-- are as before.
pub record IsMade (lua : Lua) (s s' : lua.State) (old : Option Slot) (r : Reference) (v : lua.Value)
    : Type 0 where
  pub handle : Holds lua r v s'
  pub effect : Effect lua s s' old (slot_of lua r) v

module _ (lua : Lua) (laws : IsLua lua) where
  open lua use {State, Value, Index, registry}

  -- The thread that is picked is one of the same state.
  pub picked :
      (b : Bool) (L : ℕ)
      → (L == 0) ≡ false
      → (registry (pick_main_thread lua b L L) ≡ registry L)
        × ((pick_main_thread lua b L L == 0) ≡ false)
  unfolding pick_main_thread main_thread
  picked true L e = rw e (laws.main_registry L, laws.main_thread_exists L e)
  picked false L e = (refl, e)

  pub IsMade-of :
      (L G k : ℕ) (s s' : State) (v : Value)
      → registry L ≡ G
      → (L == 0) ≡ false
      → Effect lua s s' none (some (record { group = G; index = k })) v
      → IsMade lua s s' none (record { luastate = L; ref = at k }) v
  IsMade-of L G k s s' v e n eff = record {
    handle = record {
      key = k;
      made = refl;
      not_null = n;
      alive = rw e (eff.adds G k (ground arith));
    };
    effect = rw e eff;
  }

  -- The two ways to copy a value that is there: through the stack of the target's thread, or in the
  -- registry of the source.
  copy_from-pushed :
      (m rm : Bool) (self r : Reference) (s : State) (k : ℕ)
      → r.ref ≡ at k
      → xmovable lua self.luastate r.luastate ≡ true
      → let (key, s') = ref_pushed lua self.luastate r s in
        copy_from lua m rm self r s ≡ (record self { ref = key }, s')
  unfolding copy_from
  copy_from-pushed m rm self r s k h e = by_key-at r.ref k _ _ _ h ∙ rw e refl

  copy_from-copied :
      (m rm : Bool) (self r : Reference) (s : State) (k : ℕ)
      → r.ref ≡ at k
      → xmovable lua self.luastate r.luastate ≡ false
      → let (key, s') = copy lua r s in
        copy_from lua m rm self r s ≡ (
          record { luastate = pick_main_thread lua (m && not rm) r.luastate r.luastate; ref = key },
          s',
        )
  unfolding copy_from
  copy_from-copied m rm self r s k h e = by_key-at r.ref k _ _ _ h ∙ rw e refl

  pub xmovable-registry :
      (L R : ℕ) → xmovable lua L R ≡ true → (registry L ≡ registry R) × ((L == 0) ≡ false)
  unfolding xmovable
  xmovable-registry L R e = ground arith

  -- A value pushed on the thread of `L` and stored from there.
  pub pushed-IsMade :
      (L : ℕ) (r : Reference) (s : State) (v : Value)
      → (L == 0) ≡ false
      → Holds lua r v s
      → let (key, s') = ref_pushed lua L r s in
        IsMade lua s s' none (record { luastate = L; ref = key }) v
  unfolding ref_pushed
  pushed-IsMade L r s v n h =
      let (k, key, eff) =
        stored lua laws L v s _ (push-Pushes lua laws L r s v h)
          (laws.live_not_nil s _ _ v h.alive) in
      rw key (IsMade-of L (registry L) k s _ v refl n eff)

  pub copied-IsMade :
      (b : Bool) (r : Reference) (s : State) (v : Value)
      → Holds lua r v s
      → let (key, s') = copy lua r s in
        let L = pick_main_thread lua b r.luastate r.luastate in
        IsMade lua s s' none (record { luastate = L; ref = key }) v
  copied-IsMade b r s v h =
      let (k, key, eff) = copy-Stored lua laws r s v h in
      let (same, n) = picked b r.luastate h.not_null in
      rw key (IsMade-of _ (registry r.luastate) k s _ v same n eff)

  -- What `copy_from` makes of a reference that holds a value.
  pub copy_from-IsMade :
      (m rm : Bool) (self r : Reference) (s : State) (v : Value)
      → Holds lua r v s
      → IsMade lua s (copy_from lua m rm self r s).1 none (copy_from lua m rm self r s).0 v
  copy_from-IsMade m rm self r s v h = elim (Bool-cases (xmovable lua self.luastate r.luastate)) [
    | inl e ↦
        rw (copy_from-pushed m rm self r s h.key h.made e)
          (pushed-IsMade self.luastate r s v (xmovable-registry self.luastate r.luastate e).1 h)
    | inr e ↦ rw (copy_from-copied m rm self r s h.key h.made e) (copied-IsMade _ r s v h)
  ]

  pub Holds-Effect :
      (r : Reference) (s s' : State) (old : Option Slot) (v w : Value)
      → (h : Holds lua r v s) → is_slot old (registry r.luastate) h.key ≡ false
      → Effect lua s s' old none w
      → Holds lua r v s'
  Holds-Effect r s s' old v w h apart eff = record {
    key = h.key;
    made = h.made;
    not_null = h.not_null;
    alive = rw (eff.keeps _ _ refl, apart) h.alive;
  }

  pub after_release :
      (s s1 s2 : State) (old : Option Slot) (r : Reference) (v : Value)
      → Effect lua s s1 old none v
      → IsMade lua s1 s2 none r v
      → IsMade lua s s2 old r v
  after_release s s1 s2 old r v a b = record {
    handle = b.handle;
    effect = Effect-trans lua laws s s1 s2 old _ v a b.effect;
  }

  -- Copy assignment from a reference that holds `v` and does not own the slot of the target: the target's
  -- slot is freed, the target holds `v` in a slot of its own that was not in use, every other slot
  -- keeps its value, and all stacks are as before.
  pub copy_assign-IsMade :
      (m rm : Bool) (self r : Reference) (s : State) (v : Value) (h : Holds lua r v s)
      → is_slot (slot_of lua self) (registry r.luastate) h.key ≡ false
      → IsMade lua s
          (copy_assign lua m rm self r s).1
          (slot_of lua self)
          (copy_assign lua m rm self r s).0
          v
  unfolding copy_assign
  copy_assign-IsMade m rm self r s v h apart =
      let released = release-Effect lua laws self s v in
      after_release s (release lua self s) _ (slot_of lua self) _ v released
        (copy_from-IsMade m rm self r _ v (Holds-Effect r s _ _ v v h apart released))
