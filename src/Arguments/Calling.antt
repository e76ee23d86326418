-- ===== src/Arguments/Calling.antt =====
-- Calls of functions with checks of their arguments.
use sol.Base.{ℕ, ◌+◌, ◌≡◌, refl, arith, Bool, true, false, ◌&&◌, List, ◌⊎◌, inl, inr}
use sol.Arguments.Types.{
  Value, value_at, Tracking, fresh, Leaf, ArgType, ArgTypes, boolean, leaf, transparent, variadic,
  lua_type, optional, tuple, pair, variant, no_types, also,
}
use sol.Arguments.Checking.{
  Checked, passed, refused, raised, fail, check_leaf, check_nil, check_type, check_types,
  check_none_fits,
}
use sol.Arguments.Getting.{
  Gots, error, called, get_type, get_types, check_get_leaf, call_arguments, call_checked,
}
use sol.Arguments.Safety.{
  level, all_level, takes_value, IsSafe, AllSafe, level_type, level_types, reads_well, both_true,
}

-- A type whose check says to the handler what it refuses.
abbrev mutual
  pub loud : ArgType → Bool
  loud (optional a) = false
  loud (tuple ts) = all_loud ts
  loud (pair a b) = loud a && loud b
  loud _ = true

  pub all_loud : ArgTypes → Bool
  all_loud no_types = true
  all_loud (also a ts) = loud a && all_loud ts

-- Optional parameters, and those that take no value.
abbrev pub silent : ArgType → Bool
silent (optional a) = true
silent transparent = true
silent variadic = true
silent _ = false

abbrev pub all_silent : ArgTypes → Bool
all_silent no_types = true
all_silent (also a ts) = silent a && all_silent ts

-- The optional parameters are the last, but for those that take no value.
abbrev pub optional_last : ArgTypes → Bool
optional_last no_types = true
optional_last (also (optional a) ts) = all_silent ts
optional_last (also a ts) = loud a && optional_last ts

leaf_loud : (l : Leaf) (v : Value) (t : Tracking) → check_leaf true l v t ≡ refused → ⊥
unfolding check_leaf check_nil fail
leaf_loud Leaf.lua_nil v t h = ground arith
leaf_loud boolean v t h = ground arith
leaf_loud l v t h = ground arith

none_loud : (ts : ArgTypes) (v : Value) (t : Tracking) → check_none_fits true ts v t ≡ refused → ⊥
unfolding check_none_fits fail
none_loud no_types v t h = ground arith
none_loud (also a ts) v t h = cc

-- A list of types is refused because of the first or, behind it, of the rest.
refused_first {ℓ} :
    {P : Type ℓ} (s : List Value) (a : ArgType) (ts : ArgTypes) (p : Bool) (start : ℕ)
    (t : Tracking)
    → check_types s (also a ts) p start t ≡ refused
    → (check_type s a p (start + t.used) t ≡ refused → P)
    → ((t1 : Tracking)
        → check_type s a p (start + t.used) t ≡ passed t1
        → check_types s ts p start t1 ≡ refused
        → P)
    → P
unfolding check_types
refused_first {P} s a ts p start t h here later = split (check_type s a p (start + t.used) t) refl
  where
    split : (c : Checked) → check_type s a p (start + t.used) t ≡ c → P
    split (passed t1) e = later t1 e (ground arith)
    split refused e = here e
    split raised e = ground arith

refused_at {ℓ} :
    {P : Type ℓ} (s : List Value) (a b : ArgType) (i : ℕ) (t : Tracking)
    → check_type s (pair a b) true i t ≡ refused
    → (check_type s a true (i + t.used) t ≡ refused → P)
    → ((t1 : Tracking) → check_type s b true (i + t1.used) t1 ≡ refused → P)
    → P
unfolding check_type
refused_at {P} s a b i t h here later = split (check_type s a true (i + t.used) t) refl
  where
    split : (c : Checked) → check_type s a true (i + t.used) t ≡ c → P
    split (passed t1) e = later t1 (ground arith)
    split refused e = here e
    split raised e = ground arith

mutual
  unfolding check_type

  type_loud :
      (a : ArgType) (s : List Value) (i : ℕ) (t : Tracking)
      → loud a ≡ true
      → check_type s a true i t ≡ refused
      → ⊥
  type_loud (leaf l) s i t k h = leaf_loud l (value_at s i) t h
  type_loud transparent s i t k h = cc
  type_loud variadic s i t k h = cc
  type_loud lua_type s i t k h = cc
  type_loud (optional a) s i t k h = cc
  type_loud (tuple ts) s i t k h = types_loud ts s i t k h
  type_loud (pair a b) s i t k h =
      let (k1, k2) = both_true (loud a) (loud b) k in
      refused_at s a b i t h (type_loud a s (i + t.used) t k1)
        λ t1 q. type_loud b s (i + t1.used) t1 k2 q
  type_loud (variant ts) s i t k h = ground (arith, none_loud ts (value_at s i) t)

  types_loud :
      (ts : ArgTypes) (s : List Value) (i : ℕ) (t : Tracking)
      → all_loud ts ≡ true
      → check_types s ts true i t ≡ refused
      → ⊥
  types_loud no_types s i t k h = cc
  types_loud (also a ts) s i t k h =
      let (k1, k2) = both_true (loud a) (all_loud ts) k in
      refused_first s a ts true i t h (type_loud a s (i + t.used) t k1)
        λ t1 e q. types_loud ts s i t1 k2 q

optional-IsSafe :
    (l : Leaf) (v : Value) (i : ℕ) (r : Tracking)
    → takes_value l ≡ true
    → IsSafe (check_get_leaf l i v r).0
unfolding check_get_leaf
optional-IsSafe boolean v i r k = ground arith
optional-IsSafe l v i r k = ground arith

silent-AllSafe :
    (ts : ArgTypes) (s : List Value) (start : ℕ) (r : Tracking)
    → all_silent ts ≡ true
    → all_level ts ≡ true
    → AllSafe (get_types s ts start r).0
unfolding get_types
silent-AllSafe no_types s start r k h = tt
silent-AllSafe (also transparent ts) s start r k h = (tt, silent-AllSafe ts s start _ k h)
silent-AllSafe (also variadic ts) s start r k h = (tt, silent-AllSafe ts s start _ k h)
silent-AllSafe (also (optional (leaf l)) ts) s start r k h =
    let (h1, h2) = both_true (takes_value l) (all_level ts) h in
    (
      optional-IsSafe l (value_at s (start + r.used)) (start + r.used) r h1,
      silent-AllSafe ts s start _ k h2,
    )
silent-AllSafe (also (optional _) ts) s start r k h = cc
silent-AllSafe (also _ ts) s start r k h = cc

-- What is read when the check refuses a list whose first type is loud: the rest was refused.
module _ (s : List Value) (start : ℕ) (ts : ArgTypes) where
  ReadSafely : Type 0
  ReadSafely =
      (t r : Tracking)
      → r.used ≡ t.used
      → check_types s ts true start t ≡ refused
      → AllSafe (get_types s ts start r).0

loud_step :
    (a : ArgType) (s : List Value) (start : ℕ) (ts : ArgTypes)
    → (loud a && optional_last ts) ≡ true
    → all_level (also a ts) ≡ true
    → (optional_last ts ≡ true → all_level ts ≡ true → ReadSafely s start ts)
    → ReadSafely s start (also a ts)
unfolding get_types ReadSafely
loud_step a s start ts k h next t r e q =
    let (k1, k2) = both_true (loud a) (optional_last ts) k in
    let (h1, h2) = both_true (level a) (all_level ts) h in
    refused_first s a ts true start t q (λ f. absurd (type_loud a s (start + t.used) t k1 f))
      λ t1 f g.
        let (safe, used) =
          reads_well s a start t t1 r e (level_type a s true (start + t.used) t t1 r h1 e f) in
        (safe, next k2 h2 t1 (get_type s a (start + r.used) r).1 used g)

refused-AllSafe :
    (ts : ArgTypes) (s : List Value) (start : ℕ)
    → optional_last ts ≡ true
    → all_level ts ≡ true
    → ReadSafely s start ts
unfolding ReadSafely get_types
refused-AllSafe no_types s start k h = λ t r e q. tt
refused-AllSafe (also (optional a) ts) s start k h =
    λ t r e q. silent-AllSafe (also (optional a) ts) s start r k h
refused-AllSafe (also (leaf l) ts) s start k h =
    loud_step (leaf l) s start ts k h (refused-AllSafe ts s start)
refused-AllSafe (also transparent ts) s start k h =
    loud_step transparent s start ts k h (refused-AllSafe ts s start)
refused-AllSafe (also variadic ts) s start k h =
    loud_step variadic s start ts k h (refused-AllSafe ts s start)
refused-AllSafe (also lua_type ts) s start k h = cc
refused-AllSafe (also (tuple us) ts) s start k h =
    loud_step (tuple us) s start ts k h (refused-AllSafe ts s start)
refused-AllSafe (also (pair a b) ts) s start k h = cc
refused-AllSafe (also (variant us) ts) s start k h =
    loud_step (variant us) s start ts k h (refused-AllSafe ts s start)

-- A call that checks its arguments ends with a Lua error, or every value with which the function is
-- called is one of the parameter's type, or one that can be read as an optional parameter of the type,
-- and the call does not abort. This is so for parameters of all types but `type`, pairs and
-- `lua_nil_t`, and optional ones of other types than Booleans, numbers, texts and light userdata; the
-- alternatives of variants are read from one value each. Behind an optional parameter there are only
-- optional ones and those that take no value.
pub call_arguments-AllSafe :
    (ts : ArgTypes) (s : List Value) (start : ℕ)
    → optional_last ts ≡ true
    → all_level ts ≡ true
    → (call_arguments true s ts start ≡ error)
      ⊎ ((gs : Gots) × (call_arguments true s ts start ≡ called gs) × AllSafe gs)
unfolding call_arguments call_checked ReadSafely
call_arguments-AllSafe ts s start k h = ended (check_types s ts true start fresh) refl
  where
    ended :
        (c : Checked)
        → check_types s ts true start fresh ≡ c
        → (call_arguments true s ts start ≡ error)
          ⊎ ((gs : Gots) × (call_arguments true s ts start ≡ called gs) × AllSafe gs)
    ended (passed t) e = inr (
      (get_types s ts start fresh).0,
      rw e refl,
      (level_types ts s true start fresh t fresh h refl e).0,
    )
    ended refused e = inr (
      (get_types s ts start fresh).0,
      rw e refl,
      refused-AllSafe ts s start k h fresh fresh refl e,
    )
    ended raised e = inl (rw e refl)
