-- ===== src/Usertypes/Starting.antt =====
-- What `register_usertype` leaves has no members, and `set` with `call_construction` adds none.
use sol.Base.{
  ℕ, ◌≡◌, refl, sym, ap, ◌∙◌, Bool, true, false, ◌==◌, Option, none, some, inl, inr, Bool-cases,
}
use sol.Usertypes.Storage.{
  call_function, index, new_index, Key, string, same_key, Submetatable, value, reference, unique,
  const_reference, const_value, named, number, Kind, Binding, Bases, LuaValue, closure, Storage,
  binding_at,
}
use sol.Usertypes.Setting.{
  is_named, set_call_construction, registered_at, intrinsic_at, register_usertype,
}
use sol.Usertypes.Members.{Members, IsMembers}
use sol.Usertypes.Bindings.{binding_at-push_self, binding_at-push}
use sol.Usertypes.Placing.{if_cases}
use sol.Usertypes.Keeping.{new_address}

abbrev pub no_members : Members
no_members k = none

abbrev is_closure : Option LuaValue → Bool
is_closure (some (closure i kind d)) = true
is_closure _ = false

intrinsic_at-not_closure : (o : Option ℕ) → is_closure (intrinsic_at o) ≡ false
unfolding intrinsic_at
intrinsic_at-not_closure none = refl
intrinsic_at-not_closure (some f) = refl

-- A usertype has no closures at first.
registered_at-not_closure :
    (bases : Bases) (intrinsic : Key → Option ℕ) (smt : Submetatable) (l : Key)
    → is_closure (registered_at bases intrinsic smt l) ≡ false
unfolding registered_at
registered_at-not_closure bases intrinsic smt l = elim (Bool-cases (same_key l (string index))) [
  | inl c ↦ elim (Bool-cases (is_named smt)) [ inl n ↦ rw (c, n) refl | inr n ↦ rw (c, n) refl ]
  | inr c ↦ elim (Bool-cases (same_key l (string new_index))) [
    | inl f ↦ elim (Bool-cases (is_named smt)) [
      | inl n ↦ rw (c, f, n) refl
      | inr n ↦ rw (c, f, n) refl
    ]
    | inr f ↦ rw (c, f) (intrinsic_at-not_closure (intrinsic l))
  ]
]

registered-closure :
    (bases : Bases) (intrinsic : Key → Option ℕ) (smt : Submetatable) (l : Key) (i : Bool)
    (kind : Kind) (d : ℕ)
    → registered_at bases intrinsic smt l ≡ some (closure i kind d)
    → false ≡ true
registered-closure bases intrinsic smt l i kind d e =
    sym (registered_at-not_closure bases intrinsic smt l) ∙ ap is_closure e

not_named : (smt : Submetatable) → is_named smt ≡ false → (number smt == number named) ≡ false
not_named value n = refl
not_named reference n = refl
not_named unique n = refl
not_named const_reference n = refl
not_named const_value n = refl
not_named named n = cc

pub register_usertype-IsMembers :
    (bases : Bases) (intrinsic : Submetatable → Key → Option ℕ)
    → IsMembers (register_usertype bases intrinsic) no_members
unfolding register_usertype
register_usertype-IsMembers bases intrinsic = record {
  keys = λ k. refl;
  live = λ k b e. cc;
  distinct = λ k l b c differs e f. cc;
  bases = refl;
  static_bases = refl;
  methods = λ smt n l i kind d e.
      let never = registered-closure bases (intrinsic smt) smt l i kind d e in cc;
  calls = λ l i kind d e.
      let never = registered-closure bases (intrinsic named) named l i kind d e in cc;
  fast = λ off k b e. cc;
}

pub set_call-IsMembers :
    (s : Storage) (m : Members) (b : Binding)
    → IsMembers s m
    → binding_at b.address s.storage ≡ none
    → IsMembers (set_call_construction b s) m
unfolding set_call_construction
set_call-IsMembers s m b v fresh = record {
  keys = v.keys;
  live = λ k c e. binding_at-push c.address b c s.storage (v.live k c e);
  distinct = v.distinct;
  bases = v.bases;
  static_bases = v.static_bases;
  methods = λ smt n. rw (not_named smt n) (v.methods smt n);
  calls = λ l i kind d e.
      elim (if_cases (same_key l (string call_function)) (some (closure false b.kind b.address))
        (s.tables.at named l) (some (closure i kind d)) e) [
          | inl (c, x) ↦
              let place : b.address ≡ d = cc in
              let kinds : b.kind ≡ kind = cc in
              (
                b,
                rw⁻¹ place (binding_at-push_self b s.storage fresh),
                kinds,
                λ k y there. rw⁻¹ place (new_address s m k b v fresh k y there),
              )
          | inr (c, x) ↦
              let (y, there, kinds, unnamed) = v.calls l i kind d x in
              (y, binding_at-push d b y s.storage there, kinds, unnamed)
        ];
  fast = λ off k c e.
      let (constant, plain, stored) = v.fast off k c e in
      (constant, plain, λ smt n on. rw (not_named smt n) (stored smt n on));
}
