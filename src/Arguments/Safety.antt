-- ===== src/Arguments/Safety.antt =====
-- What is read after a check that succeeds.
use mathlib.Core.Path.{subst}
use sol.Base.{
  ℕ, zero, suc, ◌+◌, ◌≡◌, refl, sym, ap, ◌∙◌, arith, Bool, true, false, ◌&&◌, ◌||◌, if◌then◌else◌,
  List, Option, some, ◌⊎◌, inl, inr, Option-cases,
}
use sol.Base
use sol.Arguments.Types.{
  Value, value_at, Tracking, use_slots, Leaf, ArgType, ArgTypes, boolean, integral, floating, text,
  lightuserdata, lua_nil, leaf, transparent, variadic, lua_type, optional, tuple, pair, variant,
  no_types, also,
}
use sol.Arguments.Checking.{
  Checked, passed, refused, raised, fail, accepts, check_leaf, check_type, check_types, is_one,
  optional_check, check_none_fits, is_lua_integer,
}
use sol.Arguments.Getting.{
  Got, Gots, value, aborted, engaged, together, alternative, no_gots, with_got, get_type, get_types,
  get_one, check_get_leaf, is_numeric,
}

-- A leaf that always takes a slot.
abbrev pub takes_slot : Leaf → Bool
takes_slot lua_nil = false
takes_slot _ = true

-- A leaf that neither a missing value nor nil fits, and that is no reference.
abbrev pub takes_value : Leaf → Bool
takes_value boolean = true
takes_value integral = true
takes_value floating = true
takes_value text = true
takes_value lightuserdata = true
takes_value _ = false

abbrev pub plain : ArgType → Bool
plain (leaf l) = takes_slot l
plain _ = false

abbrev pub all_plain : ArgTypes → Bool
all_plain no_types = true
all_plain (also a ts) = plain a && all_plain ts

abbrev pub level_optional : ArgType → Bool
level_optional (leaf l) = takes_value l
level_optional _ = false

-- The types whose checkers and getters take the same slots.
abbrev mutual
  pub level : ArgType → Bool
  level (leaf l) = takes_slot l
  level transparent = true
  level variadic = true
  level lua_type = false
  level (optional a) = level_optional a
  level (tuple ts) = all_level ts
  level (pair a b) = false
  level (variant ts) = all_plain ts

  pub all_level : ArgTypes → Bool
  all_level no_types = true
  all_level (also a ts) = level a && all_level ts

-- What an optional number is read from: a string that Lua makes a number of is one more.
abbrev pub readable : Leaf → Value → Bool
readable integral v = is_lua_integer v || (is_numeric v && v.whole)
readable floating v = is_numeric v
readable l v = accepts l v

-- Each value that is read as one of a type is one of the type, or can be read as an optional one, and
-- nothing aborts.
abbrev mutual
  pub IsSafe : Got → Type 0
  IsSafe (value l i v) = accepts l v ≡ true
  IsSafe aborted = ⊥
  IsSafe (engaged (value l i v)) = readable l v ≡ true
  IsSafe (engaged g) = IsSafe g
  IsSafe (together gs) = AllSafe gs
  IsSafe (alternative n g) = IsSafe g
  IsSafe _ = Unit

  pub AllSafe : Gots → Type 0
  AllSafe no_gots = Unit
  AllSafe (with_got g gs) = IsSafe g × AllSafe gs

-- A check of a leaf that takes a slot.
pub leaf_passes :
    (p : Bool) (l : Leaf) (v : Value) (t t' : Tracking)
    → takes_slot l ≡ true
    → check_leaf p l v t ≡ passed t'
    → (accepts l v ≡ true) × (t'.used ≡ t.used + 1)
unfolding check_leaf fail use_slots
leaf_passes true lua_nil v t t' k h = cc
leaf_passes false lua_nil v t t' k h = cc
leaf_passes true boolean v t t' k h = ground arith
leaf_passes false boolean v t t' k h = ground arith
leaf_passes true l v t t' k h = ground arith
leaf_passes false l v t t' k h = ground arith

pub leaf_fits :
    (l : Leaf) (v : Value) (t : Tracking)
    → takes_slot l ≡ true
    → (check_leaf false l v t ≡ (if accepts l v then passed (use_slots 1 t) else refused))
unfolding check_leaf fail
leaf_fits lua_nil v t k = cc
leaf_fits boolean v t k = refl
leaf_fits l v t k = refl

-- An optional value that neither a missing one nor nil fits.
optional_level :
    (l : Leaf) (v : Value) (i : ℕ) (t t' r : Tracking)
    → takes_value l ≡ true
    → r.used ≡ t.used
    → optional_check v t (check_leaf false l v t) ≡ passed t'
    → IsSafe (check_get_leaf l i v r).0 × ((check_get_leaf l i v r).1.used ≡ t'.used)
unfolding check_get_leaf optional_check check_leaf fail
optional_level boolean v i t t' r k e h = ground arith
optional_level l v i t t' r k e h = ground arith

-- The alternative that the checker finds takes one slot.
pub is_one_used :
    (s : List Value) (ts : ArgTypes) (i : ℕ) (t t' : Tracking)
    → all_plain ts ≡ true
    → is_one s ts i t ≡ some t'
    → t'.used ≡ t.used + 1
unfolding is_one check_type
is_one_used s no_types i t t' k h = cc
is_one_used s (also (leaf l) ts) i t t' k h =
    ground (arith, is_one_used s ts i t t', leaf_passes false l (value_at s i) t t')
is_one_used s (also _ ts) i t t' k h = cc

-- If the checker finds an alternative, the getter finds one, and reads a value that fits it.
get_one_lem :
    (s : List Value) (ts : ArgTypes) (n i : ℕ) (t t' r : Tracking)
    → all_plain ts ≡ true
    → is_one s ts i t ≡ some t'
    → IsSafe (get_one s ts n i r).0 × ((get_one s ts n i r).1.used ≡ r.used + 1)
unfolding is_one get_one check_type get_type use_slots
get_one_lem s no_types n i t t' r k h = cc
get_one_lem s (also (leaf l) ts) n i t t' r k h = ground (
  arith,
  get_one_lem s ts (n + 1) i t t' r,
  leaf_fits l (value_at s i) t,
  leaf_fits l (value_at s i) r,
)
get_one_lem s (also _ ts) n i t t' r k h = cc

abbrev found_one : Bool → ArgTypes → Value → Tracking → Option Tracking → Checked
found_one p ts v t Base.Option.none = check_none_fits p ts v t
found_one p ts v t (some t') = passed t'

check_variant :
    (s : List Value) (ts : ArgTypes) (p : Bool) (i : ℕ) (t : Tracking) (o : Option Tracking)
    → is_one s ts i t ≡ o
    → check_type s (variant ts) p i t ≡ found_one p ts (value_at s i) t o
unfolding check_type
check_variant s ts p i t Base.Option.none e = ground arith
check_variant s ts p i t (some t1) e = ground arith

fail-ne-passed : (p : Bool) (t : Tracking) → fail p ≡ passed t → ⊥
unfolding fail
fail-ne-passed true t h = cc
fail-ne-passed false t h = cc

pub variant_found :
    (s : List Value) (a : ArgType) (ts : ArgTypes) (p : Bool) (i : ℕ) (t t' : Tracking)
    → check_type s (variant (also a ts)) p i t ≡ passed t'
    → is_one s (also a ts) i t ≡ some t'
unfolding check_none_fits
variant_found s a ts p i t t' h = elim (Option-cases (is_one s (also a ts) i t)) [
  | inl q ↦ absurd (fail-ne-passed p t' (sym (check_variant s _ p i t _ q) ∙ h))
  | inr (t1, q) ↦ q ∙ ap some (cc (check_variant s (also a ts) p i t (some t1) q))
]

variant_level :
    (s : List Value) (ts : ArgTypes) (p : Bool) (i : ℕ) (t t' r : Tracking)
    → all_plain ts ≡ true
    → r.used ≡ t.used
    → check_type s (variant ts) p i t ≡ passed t'
    → IsSafe (get_one s ts 0 i r).0 × ((get_one s ts 0 i r).1.used ≡ t'.used)
unfolding check_none_fits
variant_level s no_types p i t t' r k e h =
    unfold check_type get_one in ground (arith, fail-ne-passed p t')
variant_level s (also a ts) p i t t' r k e h =
    let q = variant_found s a ts p i t t' h in
    let (safe, used) = get_one_lem s (also a ts) 0 i t t' r k q in
    (safe, omega (arith, is_one_used s (also a ts) i t t' k q))

-- A list of types passes if the first passes and the rest passes behind it.
pub check_first :
    (s : List Value) (a : ArgType) (ts : ArgTypes) (p : Bool) (start : ℕ) (t t' : Tracking)
    → check_types s (also a ts) p start t ≡ passed t'
    → (t1 : Tracking) × (check_type s a p (start + t.used) t ≡ passed t1)
      × (check_types s ts p start t1 ≡ passed t')
unfolding check_types
check_first s a ts p start t t' h = first (check_type s a p (start + t.used) t) refl
  where
    first :
        (c : Checked)
        → check_type s a p (start + t.used) t ≡ c
        → (t1 : Tracking) × (check_type s a p (start + t.used) t ≡ passed t1)
          × (check_types s ts p start t1 ≡ passed t')
    first (passed t1) e = (t1, e, ground arith)
    first refused e = ground arith
    first raised e = ground arith

pub both_true : (a b : Bool) → (a && b) ≡ true → (a ≡ true) × (b ≡ true)
both_true true b h = (refl, h)
both_true false b h = cc

ReadsWell : List Value → ArgType → Tracking → Tracking → ℕ → Type 0
ReadsWell s a r t' i = IsSafe (get_type s a i r).0 × ((get_type s a i r).1.used ≡ t'.used)

-- The getter reads where the checker has looked.
pub reads_well :
    (s : List Value) (a : ArgType) (start : ℕ) (t t' r : Tracking)
    → r.used ≡ t.used
    → IsSafe (get_type s a (start + t.used) r).0
      × ((get_type s a (start + t.used) r).1.used ≡ t'.used)
    → IsSafe (get_type s a (start + r.used) r).0
      × ((get_type s a (start + r.used) r).1.used ≡ t'.used)
unfolding ReadsWell
reads_well s a start t t' r e h =
    let there : start + t.used ≡ start + r.used = omega arith in subst (ReadsWell s a r t') there h

mutual
  unfolding get_type check_type use_slots

  pub level_type :
      (a : ArgType) (s : List Value) (p : Bool) (i : ℕ) (t t' r : Tracking)
      → level a ≡ true
      → r.used ≡ t.used
      → check_type s a p i t ≡ passed t'
      → IsSafe (get_type s a i r).0 × ((get_type s a i r).1.used ≡ t'.used)
  level_type (leaf l) s p i t t' r k e h = ground (arith, leaf_passes p l (value_at s i) t t' k)
  level_type transparent s p i t t' r k e h = ground arith
  level_type variadic s p i t t' r k e h = ground arith
  level_type lua_type s p i t t' r k e h = cc
  level_type (optional (leaf l)) s p i t t' r k e h = optional_level l (value_at s i) i t t' r k e h
  level_type (optional _) s p i t t' r k e h = cc
  level_type (tuple ts) s p i t t' r k e h = level_types ts s p i t t' r k e h
  level_type (pair a b) s p i t t' r k e h = cc
  level_type (variant ts) s p i t t' r k e h = variant_level s ts p i t t' r k e h

  pub level_types :
      (ts : ArgTypes) (s : List Value) (p : Bool) (start : ℕ) (t t' r : Tracking)
      → all_level ts ≡ true
      → r.used ≡ t.used
      → check_types s ts p start t ≡ passed t'
      → AllSafe (get_types s ts start r).0 × ((get_types s ts start r).1.used ≡ t'.used)
  level_types no_types s p start t t' r k e h = ground arith
  level_types (also a ts) s p start t t' r k e h =
      let (t1, q, q') = check_first s a ts p start t t' h in
      let (k1, k2) = both_true (level a) (all_level ts) k in
      let (safe', used') =
        reads_well s a start t t1 r e (level_type a s p (start + t.used) t t1 r k1 e q) in
      let (all_safe, all_used) =
        level_types ts s p start t1 t' (get_type s a (start + r.used) r).1 k2 used' q' in
      ((safe', all_safe), all_used)
