-- ===== src/Usertypes/Liveness.antt =====
-- What a storage answers uses and pushes bindings that are there.
use sol.Base.{
  ℕ, ◌≡◌, refl, sym, ap, ◌∙◌, arith, Bool, true, false, ◌==◌, ◌||◌, if◌then◌else◌, List, Option,
  none, some, inl, inr, Bool-cases, Option-cases,
}
use sol.Usertypes.Storage.{
  index, new_index, static_index, static_new_index, Key, string, other, Submetatable, value,
  reference, unique, const_reference, const_value, named, Kind, c_function, lua_reference, variable,
  function, Binding, LuaValue, raw_function, lua_value, closure, own_table, index_call,
  meta_index_call, NewIndexCallStorage, Storage, binding_at,
}
use sol.Usertypes.Setting.{is_named, call_storage}
use sol.Usertypes.Indexing.{
  Response, called, pushed, undefined, Call, is_live, push_field, call_handler, call_entry,
  call_base, use_auxiliary, auxiliary_call, found_call, Mode, base_walking, from_named_metatable,
  from_object, fail_call,
}
use sol.Usertypes.Members.{
  Members, indexed_by, new_indexed_by, first_base, first_static_base, IsMembers,
}
use sol.Usertypes.Reading.{
  kind_response, is_live-at, member_response, call_entry-member, found_call-member, answered,
}

-- A closure that is pushed is over a binding of its kind, and no pointer to none has been used.
abbrev pub is_safe : List Binding → Response → Bool
is_safe bs (pushed (closure i kind d)) = is_live bs kind d
is_safe bs undefined = false
is_safe bs _ = true

abbrev pub are_safe : List Binding → Option Response → Bool
are_safe bs none = true
are_safe bs (some r) = is_safe bs r

kind_response-safe :
    (bs : List Binding) (i : Bool) (kind : Kind) (content d : ℕ)
    → is_live bs kind d ≡ true
    → is_safe bs (kind_response i kind content d) ≡ true
kind_response-safe bs i c_function content d e = refl
kind_response-safe bs i lua_reference content d e = refl
kind_response-safe bs i variable content d e = refl
kind_response-safe bs i function content d e = e

either-safe :
    (bs : List Binding) (c : Bool) (r r1 : Response)
    → is_safe bs r ≡ true
    → is_safe bs r1 ≡ true
    → is_safe bs (if c then r else r1) ≡ true
either-safe bs true r r1 e f = e
either-safe bs false r r1 e f = f

member_response-safe :
    (bs : List Binding) (i : Bool) (k : ℕ) (b : Binding)
    → binding_at b.address bs ≡ some b
    → is_safe bs (member_response i k b) ≡ true
member_response-safe bs true k b there =
    either-safe bs (k == new_index || k == static_new_index) (called false b.address) _ refl
      (kind_response-safe bs false b.kind b.content b.address (is_live-at bs b there))
member_response-safe bs false k b there =
    either-safe bs (k == index || k == static_index) (called true b.address) _ refl
      (kind_response-safe bs true b.kind b.content b.address (is_live-at bs b there))

auxiliary-safe :
    (s : Storage) (i : Bool) (k : ℕ) (o : Option ℕ) (c : Call)
    → are_safe s.storage (answered (auxiliary_call i k o c s)) ≡ true
unfolding auxiliary_call use_auxiliary
auxiliary-safe s i k none c = refl
auxiliary-safe s true k (some v) c = refl
auxiliary-safe s false k (some v) c = refl

pub found_call-safe :
    (s : Storage) (m : Members) (i : Bool) (k : Key) (c : Call)
    → IsMembers s m
    → are_safe s.storage (answered (found_call i k c s)) ≡ true
unfolding found_call
found_call-safe s m i (string k) c v = elim (Option-cases (m k)) [
  | inl e ↦ rw (found_call-member s m i k c v, e) refl
  | inr (b, e) ↦
      rw (found_call-member s m i k c v, e) (member_response-safe s.storage i k b (v.live k b e))
]
found_call-safe s m i (other k) c v = auxiliary-safe s i k (s.auxiliary_keys k) c

value-safe :
    (bs : List Binding) (x : LuaValue)
    → ((i : Bool) (kind : Kind) (d : ℕ) → x ≡ closure i kind d → is_live bs kind d ≡ true)
    → is_safe bs (pushed x) ≡ true
value-safe bs (closure i kind d) h = h i kind d refl
value-safe bs (raw_function f) h = refl
value-safe bs (lua_value f) h = refl
value-safe bs own_table h = refl
value-safe bs (index_call i bases) h = refl
value-safe bs (meta_index_call i bases) h = refl

same_kind-live :
    (bs : List Binding) (b : Binding) (kind : Kind) (d : ℕ)
    → binding_at b.address bs ≡ some b
    → b.address ≡ d
    → b.kind ≡ kind
    → is_live bs kind d ≡ true
same_kind-live bs b kind d there place kinds =
    ap (λ p. is_live bs p d) (sym kinds)
    ∙ (ap (λ p. is_live bs b.kind p) (sym place) ∙ is_live-at bs b there)

call-live :
    (bs : List Binding) (b : Binding) (kind : Kind) (d : ℕ)
    → binding_at d bs ≡ some b
    → b.kind ≡ kind
    → is_live bs kind d ≡ true
unfolding is_live
call-live bs b kind d there kinds = rw (there, kinds) (ground arith)

named_is : (smt : Submetatable) → is_named smt ≡ true → smt ≡ named
named_is named e = refl
named_is value e = cc
named_is reference e = cc
named_is unique e = cc
named_is const_reference e = cc
named_is const_value e = cc

-- A closure in a table is over a binding that is there.
pub table-safe :
    (s : Storage) (m : Members) (smt : Submetatable) (k : Key)
    → IsMembers s m
    → is_safe s.storage (push_field (s.tables.at smt k)) ≡ true
unfolding push_field
table-safe s m smt k v = elim (Option-cases (s.tables.at smt k)) [
  | inl e ↦ rw e refl
  | inr (x, e) ↦ rw e (
      value-safe s.storage x (λ i kind d same. elim (Bool-cases (is_named smt)) [
        | inr n ↦
            let (name, b, at_name, stored, there, place, kinds) =
              v.methods smt n k i kind d (e ∙ ap some same) in
            same_kind-live s.storage b kind d (v.live name b there) place kinds
        | inl n ↦
            let (b, there, kinds, unnamed) =
              v.calls k i kind d
                (ap (λ q. s.tables.at q k) (sym (named_is smt n)) ∙ (e ∙ ap some same)) in
            call-live s.storage b kind d there kinds
      ]))
]

entry-safe :
    (s : Storage) (m : Members) (i : Bool) (k : ℕ) (b : Binding) (c : Call)
    → IsMembers s m
    → m k ≡ some b
    → is_safe s.storage (call_entry i (call_storage k b) c s).1 ≡ true
entry-safe s m i k b c v e =
    rw (call_entry-member s i k b c (v.live k b e))
      (member_response-safe s.storage i k b (v.live k b e))

-- The handlers for missing keys, when members stand in for the first of them.
base-safe :
    (s : Storage) (m : Members) (i : Bool) (j n : ℕ) (x y : Option Binding)
    (first : NewIndexCallStorage) (c : Call)
    → IsMembers s m
    → m j ≡ x
    → m n ≡ y
    → ((i : Bool) → is_safe s.storage (call_base i first c s).1 ≡ true)
    → is_safe s.storage (call_base i (new_indexed_by n y (indexed_by j x first)) c s).1 ≡ true
unfolding call_base call_entry call_storage
base-safe s m false j n none none first c v e f h = h false
base-safe s m false j n none (some a) first c v e f h = h false
base-safe s m false j n (some b) none first c v e f h = entry-safe s m false j b c v e
base-safe s m false j n (some b) (some a) first c v e f h = entry-safe s m false j b c v e
base-safe s m true j n none none first c v e f h = h true
base-safe s m true j n (some b) none first c v e f h = h true
base-safe s m true j n none (some a) first c v e f h = entry-safe s m true n a c v f
base-safe s m true j n (some b) (some a) first c v e f h = entry-safe s m true n a c v f

first_base-safe :
    (s : Storage) (m : Members) (c : Call) (v : IsMembers s m) (i : Bool)
    → is_safe s.storage (call_base i first_base c s).1 ≡ true
unfolding call_base call_handler
first_base-safe s m c v true = refl
first_base-safe s m c v false = table-safe s m c.indexed c.key v

first_static_base-safe :
    (s : Storage) (m : Members) (c : Call) (v : IsMembers s m) (i : Bool)
    → is_safe s.storage (call_base i first_static_base c s).1 ≡ true
unfolding call_base call_handler
first_static_base-safe s m c v true = refl
first_static_base-safe s m c v false = table-safe s m c.indexed c.key v

pub fail_call-safe :
    (s : Storage) (m : Members) (i : Bool) (mode : Mode) (c : Call)
    → IsMembers s m
    → is_safe s.storage (fail_call i mode c s).1 ≡ true
unfolding fail_call
fail_call-safe s m i base_walking c v = refl
fail_call-safe s m i from_named_metatable c v =
    ap (λ t. is_safe s.storage (call_base i t c s).1) v.static_bases
    ∙ base-safe s m i static_index static_new_index (m static_index) (m static_new_index)
        first_static_base c v refl refl (first_static_base-safe s m c v)
fail_call-safe s m i from_object c v =
    ap (λ t. is_safe s.storage (call_base i t c s).1) v.bases
    ∙ base-safe s m i index new_index (m index) (m new_index) first_base c v refl refl
        (first_base-safe s m c v)
