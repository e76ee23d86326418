-- ===== src/Inheritance/Getting.antt =====
-- The checker and the getter of objects agree.
use sol.Base.{
  ℕ, ◌≡◌, refl, sym, ap, ◌∙◌, arith, true, ◌==◌, ◌||◌, ◌⊎◌, Option, none, some, inl, inr,
  Bool-cases,
}
use sol.Inheritance.Casts.{Class}
use sol.Inheritance.Objects.{
  Metatable, Userdata, Wanted, check_metatable, run_class_check, check_with, check, run_class_cast,
  cast_with, get_no_lua_nil_from,
}
use sol.Inheritance.Agreement.{part, or_null, is_some, type_cast-part, type_check-part}

-- The metatable `m` was made for the class `c`, and if it is one of those that are registered for the
-- type `w`, then `c` is that type.
pub record IsMetatableOf (w : Wanted) (m : Metatable) (c : Class) : Type 0 where
  pub checks : m.class_check ≡ some c
  pub casts : m.class_cast ≡ some c
  pub registered :
      (check_metatable w.value_metatable m
          || (check_metatable w.pointer_metatable m
              || (check_metatable w.unique_metatable m || check_metatable w.container_metatable m)))
        ≡ true
      → c.qualified_name ≡ w.qualified_name

own_part : (c : Class) (object ti : ℕ) → c.qualified_name ≡ ti → part c object ti ≡ some object
own_part c object ti e = let same : (ti == c.qualified_name) ≡ true = ground arith in rw same refl

some_part : (o : Option ℕ) → is_some o ≡ true → (p : ℕ) × (o ≡ some p) × (or_null o ≡ p)
some_part none e = cc
some_part (some p) e = (p, refl, refl)

-- What the check of a metatable means.
checked :
    (w : Wanted) (m : Metatable) (c : Class) (object : ℕ)
    → IsMetatableOf w m c
    → check_with w (some m) ≡ true
    → (c.qualified_name ≡ w.qualified_name)
      ⊎ ((w.has_derived ≡ true) × (is_some (part c object w.qualified_name) ≡ true))
unfolding check_with run_class_check
checked w m c object v e =
    elim (Bool-cases (
      check_metatable w.value_metatable m
      || (check_metatable w.pointer_metatable m
          || (check_metatable w.unique_metatable m || check_metatable w.container_metatable m)))) [
            | inl t ↦ inl (v.registered t)
            | inr f ↦ inr (ground (arith, v.checks, type_check-part c object w.qualified_name))
          ]

cast_with-part :
    (w : Wanted) (m : Metatable) (c : Class) (object : ℕ)
    → IsMetatableOf w m c
    → cast_with w (some m) object ≡ or_null (part c object w.qualified_name)
unfolding cast_with run_class_cast
cast_with-part w m c object v = rw v.casts (type_cast-part c object w.qualified_name)

-- If the checker takes an object of class `c` as a type, then `c` is the type or lists it among its
-- bases, and the getter gives the pointer to that part of the object.
pub get-part :
    (w : Wanted) (u : Userdata) (m : Metatable) (c : Class)
    → u.metatable ≡ some m
    → IsMetatableOf w m c
    → check w u ≡ true
    → (p : ℕ) × (part c u.object w.qualified_name ≡ some p) × (get_no_lua_nil_from w u ≡ p)
unfolding check get_no_lua_nil_from cast_with
get-part w u m c e v ok =
    let accepted : check_with w (some m) ≡ true = ap (check_with w) (sym e) ∙ ok in
    rw e (elim (checked w m c u.object v accepted) [
      | inl named ↦ (
        u.object,
        own_part c u.object w.qualified_name named,
        elim (Bool-cases w.has_derived) [
          | inl t ↦ rw t (
              cast_with-part w m c u.object v
              ∙ ap or_null (own_part c u.object w.qualified_name named))
          | inr f ↦ rw f refl
        ],
      )
      | inr (derived, has) ↦
          let (p, there, got) = some_part (part c u.object w.qualified_name) has in
          (p, there, rw derived (cast_with-part w m c u.object v ∙ got))
    ])
