-- ===== src/Usertypes/Safety.antt =====
-- No read and no assignment uses a binding that is gone, and the closures in the tables are over bindings
-- that are there.
use sol.Base.{
  ℕ, ◌≡◌, refl, ap, ◌∙◌, arith, Bool, true, false, not, List, [], ◌∷◌, Option, none, some,
}
use sol.Usertypes.Storage.{Key, Submetatable, Binding, Bases, Storage}
use sol.Usertypes.Indexing.{
  Response, called, pushed, nothing, raised, walking_failed, undefined, Call, push_field,
  found_call, Usertypes, Mode, fail_call, self_index_call,
}
use sol.Usertypes.History.{Reached, Reached-IsMembers}
use sol.Usertypes.Reading.{answered}
use sol.Usertypes.Walking.{
  depth_first, put_found, own_answer, or_else, first_answer, class_answer, failed_answer,
  or_failure, self_index_call-first,
}
use sol.Usertypes.Liveness.{is_safe, are_safe, found_call-safe, table-safe, fail_call-safe}

abbrev pub is_undefined : Response → Bool
is_undefined undefined = true
is_undefined _ = false

-- The answer of a walk through the classes.
is_defined : Option (Usertypes × Response) → Bool
is_defined none = true
is_defined (some r) = not (is_undefined r.1)

safe-defined :
    (bs : List Binding) (r : Response) → is_safe bs r ≡ true → not (is_undefined r) ≡ true
safe-defined bs (called i d) e = refl
safe-defined bs (pushed x) e = refl
safe-defined bs nothing e = refl
safe-defined bs raised e = refl
safe-defined bs walking_failed e = refl
safe-defined bs undefined e = e

put_found-defined :
    (s : Storage) (n : ℕ) (us : Usertypes) (o : Option (Storage × Response))
    → are_safe s.storage (answered o) ≡ true
    → is_defined (put_found n us o) ≡ true
unfolding is_defined
put_found-defined s n us none e = refl
put_found-defined s n us (some r) e = safe-defined s.storage r.1 e

or_else-defined :
    (a b : Option (Usertypes × Response))
    → is_defined a ≡ true
    → is_defined b ≡ true
    → is_defined (or_else a b) ≡ true
or_else-defined none b e f = f
or_else-defined (some r) b e f = e

own_answer-defined :
    (i : Bool) (n : ℕ) (c : Call) (us : Usertypes) (o : Option Storage)
    → ((s : Storage) → o ≡ some s → Reached s)
    → is_defined (own_answer i n c us o) ≡ true
unfolding is_defined
own_answer-defined i n c us none h = refl
own_answer-defined i n c us (some s) h =
    let (m, v) = Reached-IsMembers (h s refl) in
    put_found-defined s n us (found_call i c.key c s) (found_call-safe s m i c.key c v)

first_answer-defined :
    (i : Bool) (c : Call) (us : Usertypes) (ns : List ℕ)
    → ((n : ℕ) (s : Storage) → us n ≡ some s → Reached s)
    → is_defined (first_answer i c us ns) ≡ true
unfolding is_defined
first_answer-defined i c us [] h = refl
first_answer-defined i c us (n ∷ ns) h =
    or_else-defined (own_answer i n c us (us n)) (first_answer i c us ns)
      (own_answer-defined i n c us (us n) (h n)) (first_answer-defined i c us ns h)

or_failure-defined :
    (o : Option (Usertypes × Response)) (failed : Usertypes × Response)
    → is_defined o ≡ true
    → not (is_undefined failed.1) ≡ true
    → not (is_undefined (or_failure o failed).1) ≡ true
unfolding is_defined
or_failure-defined none failed e f = f
or_failure-defined (some r) failed e f = e

-- Whatever has been set in the usertypes, from C++ and from Lua code, and whatever members have been
-- replaced: a read or an assignment of a member, through any bases, uses no pointer to a binding that is
-- gone or of another type, and what a class pushes for a key of its own and what its tables hold are
-- closures over bindings that are there.
pub self_index_call-safe :
    (us : Usertypes) (s : Storage) (is_new_index : Bool) (mode : Mode) (n : ℕ) (bases : Bases)
    (c : Call) (smt : Submetatable) (k : Key)
    → Reached s
    → ((n : ℕ) (s : Storage) → us n ≡ some s → Reached s)
    → (is_undefined (self_index_call is_new_index mode n bases c us s).1 ≡ false)
      × (are_safe s.storage (answered (found_call is_new_index k c s)) ≡ true)
      × (is_safe s.storage (push_field (s.tables.at smt k)) ≡ true)
self_index_call-safe us s i mode n bases c smt k r h =
    let (m, v) = Reached-IsMembers r in
    let own = put_found-defined s n us (found_call i c.key c s) (found_call-safe s m i c.key c v) in
    let walked = first_answer-defined i c us (depth_first us bases) h in
    let answer =
      or_else-defined (put_found n us (found_call i c.key c s))
        (first_answer i c us (depth_first us bases)) own walked in
    let last = safe-defined s.storage (fail_call i mode c s).1 (fail_call-safe s m i mode c v) in
    let whole : not (is_undefined (self_index_call i mode n bases c us s).1) ≡ true =
      ap (λ (r : Usertypes × Response). not (is_undefined r.1))
        (self_index_call-first i mode n bases c us s)
      ∙ or_failure-defined (class_answer i n bases c us s) (failed_answer i mode n c us s) answer
          last in
    (ground (arith, whole), found_call-safe s m i k c v, table-safe s m smt k v)
