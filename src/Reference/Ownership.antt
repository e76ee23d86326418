-- ===== src/Reference/Ownership.antt =====
-- Every operation on references keeps the bookkeeping of the registry right.
use sol.Base.{
  ◌⊎◌, ℕ, ◌≡◌, refl, sym, ◌∙◌, ap, arith, Option, none, some, Bool, true, false, ◌==◌,
  if◌then◌else◌, inl, inr, Bool-cases,
}
use sol.Reference.Lua.{Lua, IsLua, at}
use sol.Reference.Handle.{Reference, empty, move_construct, assign_nil}
use sol.Reference.Effects.{Slot, is_slot, slot_of, Effect, release-Effect}
use sol.Reference.Ledger.{
  IsOwned-same, replaced, replaced-IsOwned, transferred, transferred-IsOwned,
}
use sol.Reference.Outcomes.{IsUsable, IsAlive, IsApart, Outcome, copy_assign-Outcome}
use sol.Reference.Lifetimes.{copy_construct-Outcome, from_index-Outcome, destroy-Effect}
use sol.Reference.Moves.{Takes, Moves-Outcome, move_assign-Moves}
use sol.Reference.World.{
  World, set, own, used, IsValid, in_use, changed, changed_both, Step, made, copied, moved,
  copy_assigned, move_assigned, nil_assigned, destroyed, Reaches, none_yet, one_more,
}

module _ (lua : Lua) (laws : IsLua lua) where
  open lua use {State, Value, Index, registry, live}

  own_key :
      (r : Reference) (k : ℕ)
      → r.ref ≡ at k
      → is_slot (slot_of lua r) (registry r.luastate) k ≡ true
  own_key r k e = rw e (ground arith)

  in_use-some : (o : Option Value) → in_use o ≡ true → (v : Value) × (o ≡ some v)
  in_use-some none e = cc
  in_use-some (some v) e = (v, refl)

  in_use-none : (o : Option Value) → in_use o ≡ false → o ≡ none
  in_use-none none e = refl
  in_use-none (some v) e = cc

  empty_owns : (r : Reference) (g k : ℕ) → r ≡ empty → is_slot (slot_of lua r) g k ≡ false
  empty_owns r g k e = rw e refl

  used-IsAlive : (w : World lua) (i : ℕ) → IsValid lua w → IsAlive lua (w.objects i) w.state
  used-IsAlive w i v k e = in_use-some _ (v.owned.alive i _ k (own_key (w.objects i) k e))

  kept-IsApart :
      (w : World lua) (i j : ℕ)
      → IsValid lua w
      → (i == j) ≡ false
      → IsApart lua (w.objects i) (w.objects j)
  kept-IsApart w i j v ne k e =
      elim (Bool-cases (own lua w.objects i (registry (w.objects j).luastate) k)) [
        | inl t ↦
            let same : i ≡ j = v.owned.unique i j _ k t (own_key (w.objects j) k e) in ground arith
        | inr f ↦ f
      ]

  own-set :
      (objects : ℕ → Reference) (i : ℕ) (r : Reference) (j g k : ℕ)
      → own lua (set objects i r) j g k
        ≡ replaced (own lua objects) i (is_slot (slot_of lua r)) j g k
  own-set objects i r j g k = elim (Bool-cases (i == j)) [ inl e ↦ rw e refl | inr e ↦ rw e refl ]

  in_use-freed :
      (b : Bool) (o : Option Value)
      → in_use (if b then none else o) ≡ (if b then false else in_use o)
  in_use-freed true o = refl
  in_use-freed false o = refl

  -- A step that frees what an object owned, and gives it a slot that was not in use.
  changed-IsValid :
      (w : World lua) (i : ℕ) (r : Reference) (s' : State)
      → IsValid lua w
      → Outcome lua w.state s' (slot_of lua (w.objects i)) r
      → IsValid lua (changed lua w i (r, s'))
  changed-IsValid w i r s' v o = record {
    owned =
        IsOwned-same _ _ _ _ (own-set w.objects i r) (λ g k. refl)
          (replaced-IsOwned (own lua w.objects) (used lua w.state) (used lua s') v.owned i
            (is_slot (slot_of lua r))
            (λ g k e. ap in_use (o.effect.keeps g k e) ∙ in_use-freed _ (live w.state g k))
            (λ g k e. ap in_use (o.effect.adds g k e))
            (λ g k e. sym (in_use-freed _ (live w.state g k)) ∙ ap in_use (o.effect.fresh g k e)));
    usable = λ j. elim (Bool-cases (i == j)) [ inl e ↦ rw e o.usable | inr e ↦ rw e (v.usable j) ];
  }

  IsValid-same :
      (w : World lua) (objects : ℕ → Reference)
      → ((i : ℕ) → objects i ≡ w.objects i)
      → IsValid lua w
      → IsValid lua (record { objects = objects; state = w.state })
  IsValid-same w objects e v = record {
    owned =
        IsOwned-same _ _ _ _ (λ i g k. ap (λ (r : Reference). is_slot (slot_of lua r) g k) (e i))
          (λ g k. refl) v.owned;
    usable = λ i. rw (e i) (v.usable i);
  }

  own-transferred :
      (objects : ℕ → Reference) (i j : ℕ) (r : Reference) (l g k : ℕ)
      → slot_of lua r ≡ slot_of lua (objects j)
      → own lua (set (set objects j empty) i r) l g k ≡ transferred (own lua objects) i j l g k
  own-transferred objects i j r l g k e = elim (Bool-cases (i == l)) [
    | inl a ↦ rw (a, e) refl
    | inr a ↦ elim (Bool-cases (j == l)) [ inl b ↦ rw (a, b) refl | inr b ↦ rw (a, b) refl ]
  ]

  -- An object without a slot takes over the slot of another one, which is left empty.
  taken-IsValid :
      (w : World lua) (i j : ℕ) (r : Reference)
      → (i == j) ≡ false
      → IsValid lua w
      → w.objects i ≡ empty
      → slot_of lua r ≡ slot_of lua (w.objects j)
      → IsUsable r
      → IsValid lua (record { objects = set (set w.objects j empty) i r; state = w.state })
  taken-IsValid w i j r ne v nothing e u = record {
    owned =
        IsOwned-same _ _ _ _ (λ l g k. own-transferred w.objects i j r l g k e) (λ g k. refl)
          (transferred-IsOwned (own lua w.objects) (used lua w.state) v.owned i j ne
            (λ g k. rw nothing refl));
    usable = λ l. elim (Bool-cases (i == l)) [
      | inl a ↦ rw a u
      | inr a ↦ elim (Bool-cases (j == l)) [
        | inl b ↦ rw (a, b) (λ k e'. cc)
        | inr b ↦ rw (a, b) (v.usable l)
      ]
    ];
  }

  emptied-Outcome :
      (s s' : State) (old : Option Slot)
      → ((v : Value) → Effect lua s s' old none v)
      → Outcome lua s s' old empty
  emptied-Outcome s s' old eff = record {
    value = lua.nil;
    effect = eff lua.nil;
    usable = λ k e. cc;
  }

  set-kept :
      (objects : ℕ → Reference) (i j : ℕ) (r r' : Reference) (l : ℕ)
      → r' ≡ objects j
      → set (set objects j r') i r l ≡ set objects i r l
  set-kept objects i j r r' l e = elim (Bool-cases (i == l)) [
    | inl a ↦ rw a refl
    | inr a ↦ elim (Bool-cases (j == l)) [
      | inl b ↦ let same : l ≡ j = ground arith in rw (a, b, same) e
      | inr b ↦ rw (a, b) refl
    ]
  ]

  set-emptied :
      (objects : ℕ → Reference) (i j : ℕ) (r r' : Reference) (l : ℕ)
      → r' ≡ empty
      → set (set objects j r') i r l ≡ set (set (set objects i empty) j empty) i r l
  set-emptied objects i j r r' l e = elim (Bool-cases (i == l)) [
    | inl a ↦ rw a refl
    | inr a ↦ elim (Bool-cases (j == l)) [ inl b ↦ rw (a, b) e | inr b ↦ rw (a, b) refl ]
  ]

  set_one : (objects : ℕ → Reference) (i : ℕ) (r : Reference) → set objects i r i ≡ r
  set_one objects i r = let e : (i == i) ≡ true = ground arith in rw e refl

  set_other :
      (objects : ℕ → Reference) (i j : ℕ) (r : Reference)
      → (i == j) ≡ false
      → set objects i r j ≡ objects j
  set_other objects i j r e = rw e refl

  Moves-IsValid :
      (w : World lua) (i j : ℕ) (r r' : Reference) (s' : State)
      → (i == j) ≡ false
      → IsValid lua w
      → (Outcome lua w.state s' (slot_of lua (w.objects i)) r × (r' ≡ w.objects j))
        ⊎ Takes lua w.state s' (slot_of lua (w.objects i)) (w.objects j) r r'
      → IsValid lua (changed_both lua w i j (r, r', s'))
  Moves-IsValid w i j r r' s' ne v (inl (o, e)) =
      IsValid-same _ _ (λ l. set-kept w.objects i j r r' l e) (changed-IsValid w i r s' v o)
  Moves-IsValid w i j r r' s' ne v (inr t) =
      let freed : World lua = changed lua w i (empty, s') in
      let valid_freed = changed-IsValid w i empty s' v (emptied-Outcome w.state s' _ t.effect) in
      IsValid-same _ _ (λ l. set-emptied w.objects i j r r' l t.emptied)
        (taken-IsValid freed i j r ne valid_freed (set_one w.objects i empty)
          (t.slot ∙ ap (slot_of lua) (sym (set_other w.objects i j empty ne))) t.usable)

  -- Each operation keeps the world valid.
  pub Step-IsValid : (w u : World lua) → IsValid lua w → Step lua w u → IsValid lua u
  unfolding move_construct assign_nil
  Step-IsValid w _ v (made m i L index e n) =
      changed-IsValid w i _ _ v (rw e (from_index-Outcome lua laws m L index w.state n))
  Step-IsValid w _ v (copied i j ne e) = changed-IsValid w i _ _ v (
      rw e
        (copy_construct-Outcome lua laws (w.objects j) w.state (v.usable j) (used-IsAlive w j v)))
  Step-IsValid w _ v (moved i j ne e) = taken-IsValid w i j (w.objects j) ne v e refl (v.usable j)
  Step-IsValid w _ v (copy_assigned m rm i j ne) = changed-IsValid w i _ _ v (
      copy_assign-Outcome lua laws m rm (w.objects i) (w.objects j) w.state (v.usable j)
        (used-IsAlive w j v) (kept-IsApart w i j v ne))
  Step-IsValid w _ v (move_assigned m rm i j ne) = Moves-IsValid w i j _ _ _ ne v (
      Moves-Outcome lua laws w.state _ _ (w.objects i) (w.objects j) _ _ (
        move_assign-Moves lua laws m rm (w.objects i) (w.objects j) w.state (v.usable j)
          (used-IsAlive w j v) (kept-IsApart w i j v ne)))
  Step-IsValid w _ v (nil_assigned i) =
      changed-IsValid w i empty _ v
        (emptied-Outcome w.state _ _ (release-Effect lua laws (w.objects i) w.state))
  Step-IsValid w _ v (destroyed i) = changed-IsValid w i empty _ v (
      emptied-Outcome w.state _ _
        (λ x. destroy-Effect lua laws (w.objects i) w.state x (v.usable i)))

  -- From a world where each key in use belongs to exactly one reference and each reference with a key
  -- has a state, making references, copying, moving, assigning one to another one, assigning nil and
  -- destroying, in any order, leads only to such worlds.
  pub reached-IsValid : (w u : World lua) → IsValid lua w → Reaches lua w u → IsValid lua u
  reached-IsValid w _ v none_yet = v
  reached-IsValid w u v (one_more {x} p q) = Step-IsValid x u (reached-IsValid w x v p) q

  -- Each operation leaves all stacks as they were.
  Step-stacks :
      (w u : World lua)
      → IsValid lua w
      → Step lua w u
      → (t : ℕ) → lua.stack u.state t ≡ lua.stack w.state t
  unfolding move_construct assign_nil
  Step-stacks w _ v (made m i L index e n) t =
      (from_index-Outcome lua laws m L index w.state n).effect.stacks t
  Step-stacks w _ v (copied i j ne e) t =
      (copy_construct-Outcome lua laws (w.objects j) w.state (v.usable j)
          (used-IsAlive w j v)).effect.stacks
        t
  Step-stacks w _ v (moved i j ne e) t = refl
  Step-stacks w _ v (copy_assigned m rm i j ne) t =
      (copy_assign-Outcome lua laws m rm (w.objects i) (w.objects j) w.state (v.usable j)
          (used-IsAlive w j v) (kept-IsApart w i j v ne)).effect.stacks
        t
  Step-stacks w _ v (move_assigned m rm i j ne) t =
      elim (Moves-Outcome lua laws w.state _ _ (w.objects i) (w.objects j) _ _ (
        move_assign-Moves lua laws m rm (w.objects i) (w.objects j) w.state (v.usable j)
          (used-IsAlive w j v) (kept-IsApart w i j v ne))) [
            | inl (o, e) ↦ o.effect.stacks t
            | inr x ↦ (x.effect lua.nil).stacks t
          ]
  Step-stacks w _ v (nil_assigned i) t =
      (release-Effect lua laws (w.objects i) w.state lua.nil).stacks t
  Step-stacks w _ v (destroyed i) t =
      (destroy-Effect lua laws (w.objects i) w.state lua.nil (v.usable i)).stacks t

  reached-stacks :
      (w u : World lua)
      → IsValid lua w
      → Reaches lua w u
      → (t : ℕ) → lua.stack u.state t ≡ lua.stack w.state t
  reached-stacks w _ v none_yet t = refl
  reached-stacks w u v (one_more {x} p q) t =
      Step-stacks x u (reached-IsValid w x v p) q t ∙ reached-stacks w x v p t

  -- From a world where each key in use belongs to exactly one reference and each reference with a key has a
  -- state, making references from the stack, copying, moving, and assigning to another object, assigning nil
  -- and destroying, in any order: when all references are empty in the end, no key of a registry is in use,
  -- and all stacks are as before. Assignments of an object to itself and the constructors for another state are
  -- no such operations.
  pub reached-no_leak :
      (w u : World lua)
      → IsValid lua w
      → Reaches lua w u
      → ((i : ℕ) → u.objects i ≡ empty)
      → ((t : ℕ) → lua.stack u.state t ≡ lua.stack w.state t)
        × ((g k : ℕ) → live u.state g k ≡ none)
  reached-no_leak w u v p gone = (
    reached-stacks w u v p,
    λ g k.
        let valid_end = reached-IsValid w u v p in
        elim (Bool-cases (in_use (live u.state g k))) [
          | inl e ↦
              let (i, o) = valid_end.owned.owned g k e in
              let not_owned = empty_owns (u.objects i) g k (gone i) in cc
          | inr e ↦ in_use-none _ e
        ],
  )
