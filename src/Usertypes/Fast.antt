-- ===== src/Usertypes/Fast.antt =====
-- Reads through the tables, and reads that look members up, give the same.
use sol.Base.{
  ℕ, ◌≡◌, refl, sym, ap, none, ◌∙◌, arith, true, false, ◌==◌, ◌||◌, inl, inr, Option-cases,
}
use sol.Usertypes.Storage.{
  index, new_index, garbage_collect, static_index, static_new_index, string, Submetatable, Kind,
  c_function, lua_reference, variable, function, is_variable, closure, Bases, Storage,
}
use sol.Usertypes.Setting.{is_named, stored_for, stored_value}
use sol.Usertypes.Indexing.{
  Response, pushed, Call, push_field, call_handler, call_base, Usertypes, from_object, fail_call,
  answer, answer_with, found_call, self_index_call,
}
use sol.Usertypes.Walking.{first_answer, depth_first, walk_bases-first}
use sol.Usertypes.Members.{Members, IsMembers, is_stored}
use sol.Usertypes.History.{Reached, Reached-IsMembers}
use sol.Usertypes.Reading.{kind_response, found_call-member}

-- A response without the flag that tells reads of variables from assignments. A closure over another
-- binding than a variable ignores it.
abbrev pub without_flag : Response → Response
without_flag (pushed (closure i kind d)) = pushed (closure true kind d)
without_flag r = r

kind_response-stored :
    (kind : Kind) (content d : ℕ)
    → is_variable kind ≡ false
    → without_flag (pushed (stored_for kind content d))
      ≡ without_flag (kind_response true kind content d)
kind_response-stored c_function content d e = refl
kind_response-stored lua_reference content d e = cc
kind_response-stored variable content d e = cc
kind_response-stored function content d e = refl

-- The call of a read, on an object with the metatable `smt`.
abbrev pub read : Submetatable → ℕ → ℕ → ℕ → Call
read smt k v p = record { indexed = smt; key = string k; assigned = v; next = p }

-- A name that is missing is looked up in the metatable, as long as there is no handler for it.
missing_read :
    (s : Storage) (m : Members) (c : Call)
    → IsMembers s m
    → s.tables.is_using_index ≡ false
    → (call_base false s.base_index c s).1 ≡ push_field (s.tables.at c.indexed c.key)
unfolding call_base call_handler
missing_read s m c v off = elim (Option-cases (m index)) [
  | inl e ↦ elim (Option-cases (m new_index)) [
    | inl f ↦ rw (v.bases, e, f) refl
    | inr (b, f) ↦ rw (v.bases, e, f) refl
  ]
  | inr (b, e) ↦ let (constant, plain, stored) = v.fast off index b e in cc
]

-- As long as no variable and no handler for missing names has been set: a read of a name through the
-- tables of an object gives what the class answers, up to the flag of a closure, whether the name is a
-- member of the class, a C function of the usertype, or missing, whatever the bases of the class are, if
-- none of the registered ones has an answer to a name that the class itself has not: the tables do not
-- have the members of bases. The names of destructors and of the handlers for the named table are left
-- out.
pub self_index_call-fast :
    (s : Storage) (smt : Submetatable) (k v p n : ℕ) (bases : Bases) (us : Usertypes)
    → Reached s
    → s.tables.is_using_index ≡ false
    → is_named smt ≡ false
    → (k == garbage_collect || (k == static_index || k == static_new_index)) ≡ false
    → (found_call false (string k) (read smt k v p) s ≡ none
        → first_answer false (read smt k v p) us (depth_first us bases) ≡ none)
    → without_flag (push_field (s.tables.at smt (string k)))
      ≡ without_flag (self_index_call false from_object n bases (read smt k v p) us s).1
unfolding self_index_call answer answer_with fail_call push_field stored_value
self_index_call-fast s smt k v p n bases us r off proper plain_name inherits_none =
    let (m, h) = Reached-IsMembers r in
    let c = read smt k v p in
    elim (Option-cases (m k)) [
      | inl e ↦
          let missing : found_call false (string k) c s ≡ none =
            found_call-member s m false k c h ∙ rw e refl in
          rw (missing, walk_bases-first false bases c us, inherits_none missing)
            (ap without_flag (sym (missing_read s m c h off)))
      | inr (b, e) ↦
          let (constant, plain, stored) = h.fast off k b e in
          let kept : is_stored k smt ≡ true = ground (arith, plain, plain_name) in
          let read_by_name : (k == index || k == static_index) ≡ false =
            ground (arith, plain, plain_name) in
          rw (found_call-member s m false k c h, e, stored smt proper kept, read_by_name)
            (kind_response-stored b.kind b.content b.address constant)
    ]
