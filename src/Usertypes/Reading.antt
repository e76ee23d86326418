-- ===== src/Usertypes/Reading.antt =====
-- What reads and assignments of members answer.
use sol.Base.{
  ℕ, ◌≡◌, refl, ap, arith, Bool, true, false, ◌==◌, ◌||◌, if◌then◌else◌, List, Option, none, some,
  inl, inr, Bool-cases, Option-cases,
}
use sol.Usertypes.Storage.{
  index, new_index, static_index, static_new_index, string, Kind, c_function, lua_reference,
  variable, function, Binding, raw_function, closure, Storage, binding_at,
}
use sol.Usertypes.Setting.{call_storage, set_string}
use sol.Usertypes.Indexing.{
  Response, called, pushed, Call, is_live, push_content, call_with_, index_call_with_, call_handler,
  call_entry, string_call, found_call,
}
use sol.Usertypes.Members.{Members, with_member, IsMembers}
use sol.Usertypes.Refinement.{set_string-IsMembers}
use sol.Usertypes.History.{Reached, Reached-IsMembers}

-- What `index_call_with_` does with a binding of a kind.
abbrev pub kind_response : Bool → Kind → ℕ → ℕ → Response
kind_response is_index c_function content d = pushed (raw_function content)
kind_response is_index lua_reference content d = called is_index d
kind_response is_index variable content d = called is_index d
kind_response is_index function content d = pushed (closure is_index function d)

pub is_live-at :
    (bs : List Binding) (b : Binding)
    → binding_at b.address bs ≡ some b
    → is_live bs b.kind b.address ≡ true
unfolding is_live
is_live-at bs b there = rw there (ground arith)

index_call_with-at :
    (bs : List Binding) (i : Bool) (kind : Kind) (b : Binding) (d : ℕ)
    → binding_at d bs ≡ some b
    → is_live bs kind d ≡ true
    → index_call_with_ bs i kind d ≡ kind_response i kind b.content d
unfolding index_call_with_ call_with_ push_content
index_call_with-at bs i c_function b d there live = rw (live, there) refl
index_call_with-at bs i lua_reference b d there live = rw live refl
index_call_with-at bs i variable b d there live = rw live refl
index_call_with-at bs i function b d there live = refl

-- What the handlers of a member answer: the first name is for reads, the second for assignments.
abbrev pub member_response : Bool → ℕ → Binding → Response
member_response is_new_index k b =
    if is_new_index
    then (if k == new_index || k == static_new_index
        then called false b.address
        else kind_response false b.kind b.content b.address)
    else if k == index || k == static_index
    then called true b.address
    else kind_response true b.kind b.content b.address

pub call_entry-member :
    (s : Storage) (is_new_index : Bool) (k : ℕ) (b : Binding) (c : Call)
    → binding_at b.address s.storage ≡ some b
    → call_entry is_new_index (call_storage k b) c s ≡ (s, member_response is_new_index k b)
unfolding call_entry call_storage call_handler call_with_
call_entry-member s true k b c there =
    let live = is_live-at s.storage b there in
    elim (Bool-cases (k == new_index || k == static_new_index)) [
      | inl e ↦ rw (e, live) refl
      | inr e ↦
          rw e (ap (λ r. (s, r)) (index_call_with-at s.storage false b.kind b b.address there live))
    ]
call_entry-member s false k b c there =
    let live = is_live-at s.storage b there in
    elim (Bool-cases (k == index || k == static_index)) [
      | inl e ↦ rw (e, live) refl
      | inr e ↦
          rw e (ap (λ r. (s, r)) (index_call_with-at s.storage true b.kind b b.address there live))
    ]

abbrev pub response_of : Bool → ℕ → Option Binding → Storage → Option (Storage × Response)
response_of is_new_index k none s = none
response_of is_new_index k (some b) s = some (s, member_response is_new_index k b)

pub found_call-member :
    (s : Storage) (m : Members) (is_new_index : Bool) (k : ℕ) (c : Call)
    → IsMembers s m
    → found_call is_new_index (string k) c s ≡ response_of is_new_index k (m k) s
unfolding found_call string_call
found_call-member s m i k c v = elim (Option-cases (m k)) [
  | inl e ↦ rw (v.keys k, e) refl
  | inr (b, e) ↦ rw (v.keys k, e) (ap some (call_entry-member s i k b c (v.live k b e)))
]

-- What a name answers, without the storage that is left.
abbrev pub answered : Option (Storage × Response) → Option Response
answered none = none
answered (some r) = some r.1

answered-response_of :
    (is_new_index : Bool) (k : ℕ) (x : Option Binding) (s u : Storage)
    → answered (response_of is_new_index k x s) ≡ answered (response_of is_new_index k x u)
answered-response_of i k none s u = refl
answered-response_of i k (some b) s u = refl

-- After a binding has been set under a name, on any usertype and at any free address, this name answers
-- with the binding, to reads and to assignments: a C function is pushed, a variable or a reference is
-- called, another function is pushed as a closure over the binding, and the handlers for missing names
-- are called. Every other name answers what it answered before.
pub found_call-set_string :
    (s : Storage) (k l : ℕ) (b : Binding) (is_new_index : Bool) (c : Call)
    → Reached s
    → binding_at b.address s.storage ≡ none
    → answered (found_call is_new_index (string l) c (set_string k b s)) ≡ (
        if l == k
        then some (member_response is_new_index k b)
        else answered (found_call is_new_index (string l) c s))
found_call-set_string s k l b i c r fresh =
    let (m, v) = Reached-IsMembers r in
    let after =
      found_call-member (set_string k b s) (with_member k b m) i l c
        (set_string-IsMembers s m k b v fresh) in
    elim (Bool-cases (l == k)) [
      | inl e ↦
          let same : l ≡ k = ground arith in
          rw (after, e) (ap (λ n. some (member_response i n b)) same)
      | inr e ↦
          rw (after, found_call-member s m i l c v, e)
            (answered-response_of i l (m l) (set_string k b s) s)
    ]
