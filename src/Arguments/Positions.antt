-- ===== src/Arguments/Positions.antt =====
-- Which slots of the stack the arguments are read from.
use sol.Base.{
  ℕ, zero, suc, ◌+◌, ◌≤◌, ◌<◌, ◌≡◌, refl, ap, ◌∙◌, arith, Bool, true, false, some, ◌&&◌, List, [],
  ◌∷◌, ◌++◌, length, All,
}
use sol.Arguments.Types.{
  LuaType, is_type, Value, value_at, Tracking, fresh, use_slots, Leaf, ArgType, ArgTypes, boolean,
  leaf, transparent, variadic, lua_type, optional, tuple, pair, variant, no_types, also, free_arity,
  lua_sizes, count_transparent,
}
use sol.Arguments.Checking.{
  passed, fail, check_leaf, check_type, check_types, is_one, optional_check,
}
use sol.Arguments.Getting.{
  Got, Gots, value, type_at, nothing, engaged, together, alternative, no_gots, with_got, get_type,
  get_types, get_one, check_get_leaf,
}
use sol.Arguments.Safety.{
  level, all_level, all_plain, takes_slot, takes_value, level_optional, level_type, reads_well,
  variant_found, is_one_used, leaf_fits, leaf_passes, check_first, both_true,
}

-- The indices of the values that are read, in order.
abbrev mutual
  pub positions : Got → List ℕ
  positions (value l i v) = i ∷ []
  positions (type_at i) = i ∷ []
  positions (nothing i) = i ∷ []
  positions (engaged g) = positions g
  positions (alternative n g) = positions g
  positions (together gs) = all_positions gs
  positions _ = []

  pub all_positions : Gots → List ℕ
  all_positions no_gots = []
  all_positions (with_got g gs) = positions g ++ all_positions gs

-- Some alternatives, each read from one value.
abbrev pub some_plain : ArgTypes → Bool
some_plain no_types = false
some_plain (also a ts) = all_plain (also a ts)

-- The types that take one slot or, those that stand for the state or the rest, none.
abbrev pub flat : ArgType → Bool
flat (leaf l) = takes_slot l
flat transparent = true
flat variadic = true
flat (optional a) = level_optional a
flat (variant ts) = some_plain ts
flat _ = false

abbrev pub all_flat : ArgTypes → Bool
all_flat no_types = true
all_flat (also a ts) = flat a && all_flat ts

-- The indices from `i` on.
abbrev pub from : ℕ → ℕ → List ℕ
from i zero = []
from i (suc n) = i ∷ from (i + 1) n

-- There is a value in every slot.
abbrev pub IsFilled : List Value → Type 0
IsFilled s = All (λ v. is_type LuaType.none v ≡ false) s

slots : ArgType → ℕ
slots transparent = 0
slots variadic = 0
slots _ = 1

value_at-present :
    (s : List Value) (i : ℕ)
    → IsFilled s
    → 0 < i
    → i ≤ length s
    → is_type LuaType.none (value_at s i) ≡ false
unfolding value_at
value_at-present [] i f p q = absurd (omega arith)
value_at-present (v ∷ s) zero f p q = absurd (omega arith)
value_at-present (v ∷ s) (suc zero) (h, f) p q = h
value_at-present (v ∷ s) (suc (suc i)) (h, f) p q =
    value_at-present s (suc i) f (omega arith) (omega arith)

get_one-positions :
    (s : List Value) (ts : ArgTypes) (n i : ℕ) (t t' r : Tracking)
    → all_plain ts ≡ true
    → is_one s ts i t ≡ some t'
    → positions (get_one s ts n i r).0 ≡ i ∷ []
unfolding is_one get_one check_type get_type
get_one-positions s no_types n i t t' r k h = cc
get_one-positions s (also (leaf l) ts) n i t t' r k h = ground (
  arith,
  get_one-positions s ts (n + 1) i t t' r,
  leaf_fits l (value_at s i) t,
  leaf_fits l (value_at s i) r,
)
get_one-positions s (also _ ts) n i t t' r k h = cc

optional-positions :
    (l : Leaf) (v : Value) (i : ℕ) (p : Bool) (t t' r : Tracking)
    → takes_value l ≡ true
    → is_type LuaType.none v ≡ false
    → optional_check v t (check_leaf false l v t) ≡ passed t'
    → (positions (check_get_leaf l i v r).0 ≡ i ∷ []) × (t'.used ≡ t.used + 1)
unfolding optional_check check_get_leaf check_leaf fail use_slots
optional-positions boolean v i p t t' r k n h = ground arith
optional-positions l v i p t t' r k n h = ground arith

flat_lem :
    (a : ArgType) (s : List Value) (p : Bool) (i : ℕ) (t t' r : Tracking)
    → flat a ≡ true
    → (0 < slots a → is_type LuaType.none (value_at s i) ≡ false)
    → check_type s a p i t ≡ passed t'
    → (positions (get_type s a i r).0 ≡ from i (slots a)) × (t'.used ≡ t.used + slots a)
unfolding check_type get_type slots use_slots
flat_lem (leaf l) s p i t t' r k n h = (refl, (leaf_passes p l (value_at s i) t t' k h).1)
flat_lem transparent s p i t t' r k n h = ground arith
flat_lem variadic s p i t t' r k n h = ground arith
flat_lem lua_type s p i t t' r k n h = cc
flat_lem (optional (leaf l)) s p i t t' r k n h =
    optional-positions l (value_at s i) i p t t' r k (n (omega arith)) h
flat_lem (optional _) s p i t t' r k n h = cc
flat_lem (tuple ts) s p i t t' r k n h = cc
flat_lem (pair a b) s p i t t' r k n h = cc
flat_lem (variant no_types) s p i t t' r k n h = cc
flat_lem (variant (also a ts)) s p i t t' r k n h =
    let q = variant_found s a ts p i t t' h in
    (get_one-positions s (also a ts) 0 i t t' r k q, is_one_used s (also a ts) i t t' k q)

flat-level : (a : ArgType) → flat a ≡ true → level a ≡ true
flat-level (leaf l) h = h
flat-level transparent h = refl
flat-level variadic h = refl
flat-level lua_type h = cc
flat-level (optional a) h = h
flat-level (tuple ts) h = cc
flat-level (pair a b) h = cc
flat-level (variant no_types) h = cc
flat-level (variant (also a ts)) h = h

pub all_flat-level : (ts : ArgTypes) → all_flat ts ≡ true → all_level ts ≡ true
all_flat-level no_types h = refl
all_flat-level (also a ts) h =
    let (h1, h2) = both_true (flat a) (all_flat ts) h in
    rw (flat-level a h1, all_flat-level ts h2) refl

pub total : ArgTypes → ℕ
total no_types = 0
total (also a ts) = slots a + total ts

pub from-append : (m n i : ℕ) → from i m ++ from (i + m) n ≡ from i (m + n)
from-append zero n i = ap (λ (k : ℕ). from k n) (omega arith) ∙ ap (from i) (omega arith)
from-append (suc m) n i =
    let there : i + suc m ≡ i + 1 + m = omega arith in
    let more : suc m + n ≡ suc (m + n) = omega arith in
    rw (there, more) (ap (λ (l : List ℕ). i ∷ l) (from-append m n (i + 1)))

sizes-total : (ts : ArgTypes) → all_flat ts ≡ true → lua_sizes ts ≡ total ts + count_transparent ts
unfolding lua_sizes count_transparent total slots
sizes-total no_types h = refl
sizes-total (also (leaf l) ts) h = ground (arith, sizes-total ts)
sizes-total (also transparent ts) h = ground (arith, sizes-total ts)
sizes-total (also variadic ts) h = ground (arith, sizes-total ts)
sizes-total (also lua_type ts) h = cc
sizes-total (also (optional a) ts) h = ground (arith, sizes-total ts)
sizes-total (also (tuple us) ts) h = cc
sizes-total (also (pair a b) ts) h = cc
sizes-total (also (variant us) ts) h = ground (arith, sizes-total ts)

pub free_arity-total : (ts : ArgTypes) → all_flat ts ≡ true → free_arity ts ≡ total ts
unfolding free_arity
free_arity-total ts h = omega (arith, sizes-total ts h)

types-positions :
    (ts : ArgTypes) (s : List Value) (p : Bool) (start : ℕ) (t t' r : Tracking)
    → all_flat ts ≡ true
    → IsFilled s
    → 0 < start
    → start + t.used + total ts ≤ suc (length s)
    → r.used ≡ t.used
    → check_types s ts p start t ≡ passed t'
    → all_positions (get_types s ts start r).0 ≡ from (start + t.used) (total ts)
unfolding get_types total
types-positions no_types s p start t t' r k f z m e h = refl
types-positions (also a ts) s p start t t' r k f z m e h =
    let (t1, q, q') = check_first s a ts p start t t' h in
    let (k1, k2) = both_true (flat a) (all_flat ts) k in
    let i = start + t.used in
    let there : start + r.used ≡ i = omega arith in
    let (here, used) =
      flat_lem a s p i t t1 r k1 (λ w. value_at-present s i f (omega arith) (omega arith)) q in
    let (_, next) =
      reads_well s a start t t1 r e (level_type a s p i t t1 r (flat-level a k1) e q) in
    let later =
      types-positions ts s p start t1 t' (get_type s a (start + r.used) r).1 k2 f z (omega arith)
        next q' in
    let behind : start + t1.used ≡ i + slots a = omega (arith, used) in
    let whole : positions (get_type s a (start + r.used) r).0 ≡ from i (slots a) =
      ap (λ (k : ℕ). positions (get_type s a k r).0) there ∙ here in
    rw (whole, later, behind) (from-append (slots a) (total ts) i)

-- In a stack with a value in every slot, types that take one slot each, or none, are read from the
-- slots behind each other, as many as there are parameters that take one.
pub get_types-positions :
    (ts : ArgTypes) (s : List Value) (p : Bool) (start : ℕ) (t : Tracking)
    → all_flat ts ≡ true
    → IsFilled s
    → 0 < start
    → start + free_arity ts ≤ suc (length s)
    → check_types s ts p start fresh ≡ passed t
    → all_positions (get_types s ts start fresh).0 ≡ from start (free_arity ts)
get_types-positions ts s p start t k f z m h =
    let size = free_arity-total ts k in
    let here : start + 0 ≡ start = omega arith in
    let room : start + 0 + total ts ≤ suc (length s) = omega (arith, size) in
    let read = types-positions ts s p start fresh t fresh k f z room refl h in
    rw size (read ∙ ap (λ (i : ℕ). from i (total ts)) here)
