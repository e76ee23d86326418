-- ===== src/Inheritance/Agreement.antt =====
-- The check and the casts of a class agree.
use sol.Base.{
  ℕ, ◌≡◌, refl, arith, Bool, true, false, not, ◌==◌, ◌||◌, if◌then◌else◌, List, [], ◌∷◌, Option,
  none, some, All, inl, inr, Bool-cases, Option-cases,
}
use sol.Inheritance.Casts.{
  Base, Class, type_check_bases, type_check, type_cast_bases, type_cast, UniqueCast,
  type_unique_cast_bases, UniqueTraits, type_unique_cast,
}

-- What C++ says of `static_cast<Base*>`: only `nullptr` becomes `nullptr`.
abbrev pub KeepsNull : Base → Type 0
KeepsNull b = (p : ℕ) → (p == 0) ≡ false → (b.to_base p == 0) ≡ false

-- The first base with a name.
abbrev pub base_named : List Base → ℕ → Option Base
base_named [] ti = none
base_named (b ∷ bs) ti = if ti == b.qualified_name then some b else base_named bs ti

abbrev pub converted : Option Base → ℕ → Option ℕ
converted none object = none
converted (some b) object = some (b.to_base object)

-- The pointer to the part of an object that is asked for, if its class has such a part.
abbrev pub part : Class → ℕ → ℕ → Option ℕ
part c object ti =
    if ti == c.qualified_name then some object else converted (base_named c.bases ti) object

abbrev pub or_null : Option ℕ → ℕ
or_null none = 0
or_null (some p) = p

abbrev pub is_some {ℓ} : {A : Type ℓ} → Option A → Bool
is_some none = false
is_some (some x) = true

cast_bases-named :
    (bs : List Base) (object ti : ℕ)
    → type_cast_bases bs object ti ≡ or_null (converted (base_named bs ti) object)
unfolding type_cast_bases
cast_bases-named [] object ti = refl
cast_bases-named (b ∷ bs) object ti = elim (Bool-cases (ti == b.qualified_name)) [
  | inl e ↦ rw e refl
  | inr e ↦ rw e (cast_bases-named bs object ti)
]

pub type_cast-part :
    (c : Class) (object ti : ℕ) → type_cast c object ti ≡ or_null (part c object ti)
unfolding type_cast
type_cast-part c object ti = elim (Bool-cases (ti == c.qualified_name)) [
  | inl e ↦ rw e refl
  | inr e ↦ rw e (cast_bases-named c.bases object ti)
]

check_bases-named :
    (bs : List Base) (object ti : ℕ)
    → type_check_bases bs ti ≡ is_some (converted (base_named bs ti) object)
unfolding type_check_bases
check_bases-named [] object ti = refl
check_bases-named (b ∷ bs) object ti = elim (Bool-cases (ti == b.qualified_name)) [
  | inl e ↦ rw e refl
  | inr e ↦ rw e (check_bases-named bs object ti)
]

pub type_check-part : (c : Class) (object ti : ℕ) → type_check c ti ≡ is_some (part c object ti)
unfolding type_check
type_check-part c object ti = elim (Bool-cases (ti == c.qualified_name)) [
  | inl e ↦ rw e refl
  | inr e ↦ rw e (check_bases-named c.bases object ti)
]

nothing_stored : (z : Bool) → ◌≡◌ {A = Option Base} none (if z then none else none)
nothing_stored true = refl
nothing_stored false = refl

base_stored :
    (z : Bool) (b : Base) → (if not z then some b else none) ≡ (if z then none else some b)
base_stored true b = refl
base_stored false b = refl

unique_cast_bases-named :
    (bs : List Base) (target_data ti : ℕ)
    → type_unique_cast_bases bs target_data ti ≡ (elim (base_named bs ti) [
      | none ↦ record { result = 0; stored = none }
      | some b ↦ record { result = 2; stored = if not (target_data == 0) then some b else none }
    ])
unfolding type_unique_cast_bases
unique_cast_bases-named [] target_data ti = refl
unique_cast_bases-named (b ∷ bs) target_data ti =
    let same : (b.qualified_name == ti) ≡ (ti == b.qualified_name) = ground arith in
    elim (Bool-cases (ti == b.qualified_name)) [
      | inl e ↦ rw (same, e) refl
      | inr e ↦ rw (same, e) (unique_cast_bases-named bs target_data ti)
    ]

part_not_null :
    (bs : List Base) (object ti : ℕ)
    → All KeepsNull bs
    → (object == 0) ≡ false
    → let p = converted (base_named bs ti) object in is_some p ≡ not (or_null p == 0)
part_not_null [] object ti keeps n = refl
part_not_null (b ∷ bs) object ti keeps n = elim (Bool-cases (ti == b.qualified_name)) [
  | inl e ↦ rw (e, keeps.0 object n) refl
  | inr e ↦ rw e (part_not_null bs object ti keeps.1 n)
]

pub cast-not_null :
    (c : Class) (object ti : ℕ)
    → All KeepsNull c.bases
    → (object == 0) ≡ false
    → type_check c ti ≡ not (type_cast c object ti == 0)
cast-not_null c object ti keeps n =
    rw (type_check-part c object ti, type_cast-part c object ti)
      (elim (Bool-cases (ti == c.qualified_name)) [
        | inl e ↦ rw (e, n) refl
        | inr e ↦ rw e (part_not_null c.bases object ti keeps n)
      ])

-- What the unique cast does for a smart pointer of the right kind.
abbrev unique_cast : Class → ℕ → ℕ → UniqueCast
unique_cast c target_data ti =
    if ti == c.qualified_name
    then record { result = 1; stored = none }
    else type_unique_cast_bases c.bases target_data ti

unique_result :
    (c : Class) (object target_data ti : ℕ)
    → is_some (part c object ti) ≡ not ((unique_cast c target_data ti).result == 0)
unique_result c object target_data ti = elim (Bool-cases (ti == c.qualified_name)) [
  | inl e ↦ rw e refl
  | inr e ↦ elim (Option-cases (base_named c.bases ti)) [
    | inl b ↦ rw (e, unique_cast_bases-named c.bases target_data ti, b) refl
    | inr (x, b) ↦ rw (e, unique_cast_bases-named c.bases target_data ti, b) refl
  ]
]

unique_stored :
    (c : Class) (target_data ti : ℕ)
    → (unique_cast c target_data ti).stored
      ≡ (if ti == c.qualified_name || target_data == 0 then none else base_named c.bases ti)
unique_stored c target_data ti = elim (Bool-cases (ti == c.qualified_name)) [
  | inl e ↦ rw e refl
  | inr e ↦ elim (Option-cases (base_named c.bases ti)) [
    | inl b ↦
        rw (e, unique_cast_bases-named c.bases target_data ti, b)
          (nothing_stored (target_data == 0))
    | inr (x, b) ↦
        rw (e, unique_cast_bases-named c.bases target_data ti, b) (base_stored (target_data == 0) x)
  ]
]

-- For an object that is there and casts that keep it so: `type_check` accepts a name exactly if
-- `type_cast` gives a pointer, which is the one to the part of the object with that name, the class
-- itself or the first base listed under it. For a smart pointer of the same kind that can be rebound,
-- `type_unique_cast` accepts the same names, and it converts to that base if the name is not that of
-- the class itself and there is a target.
pub casts-agree :
    (c : Class) (object ti target_data : ℕ) (u : UniqueTraits)
    → All KeepsNull c.bases
    → (object == 0) ≡ false
    → u.is_base_rebindable ≡ true
    → u.is_rebind_void ≡ false
    → let unique = type_unique_cast u c target_data ti u.rebind_name in
      (type_check c ti ≡ not (type_cast c object ti == 0))
      × (type_cast c object ti ≡ or_null (part c object ti))
      × (type_check c ti ≡ not (unique.result == 0))
      × (unique.stored
          ≡ (if ti == c.qualified_name || target_data == 0 then none else base_named c.bases ti))
unfolding type_unique_cast
casts-agree c object ti target_data u keeps n r v =
    let own_kind : (u.rebind_name == u.rebind_name) ≡ true = ground arith in
    (
      cast-not_null c object ti keeps n,
      type_cast-part c object ti,
      rw (type_check-part c object ti, r, v, own_kind) (unique_result c object target_data ti),
      rw (r, v, own_kind) (unique_stored c target_data ti),
    )
