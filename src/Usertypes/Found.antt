-- ===== src/Usertypes/Found.antt =====
-- What a storage answers for a key is not the mark that a walk through the bases has failed.
use sol.Base.{
  ℕ, ◌≡◌, refl, ap, Bool, true, false, not, List, Option, none, some, inl, inr, Bool-cases,
}
use sol.Usertypes.Storage.{
  Key, string, other, Kind, c_function, lua_reference, variable, function, Binding, IndexHandler,
  call_with, index_call_with, index_target_fail, new_index_target_fail, new_index_target_set,
  LuaValue, IndexCallStorage, Storage, binding_at,
}
use sol.Usertypes.Indexing.{
  Response, Call, is_live, push_content, call_with_, index_call_with_, push_field, call_handler,
  call_entry, use_auxiliary, string_call, auxiliary_call, found_call, is_walking_failed,
}

push_content-found : (o : Option Binding) → is_walking_failed (push_content o) ≡ false
unfolding push_content
push_content-found none = refl
push_content-found (some b) = refl

push_field-found : (o : Option LuaValue) → is_walking_failed (push_field o) ≡ false
unfolding push_field
push_field-found none = refl
push_field-found (some v) = refl

call_with-found :
    (bs : List Binding) (i : Bool) (kind : Kind) (d : ℕ)
    → is_walking_failed (call_with_ bs i kind d) ≡ false
unfolding call_with_
call_with-found bs i kind d = elim (Bool-cases (is_live bs kind d)) [
  | inl e ↦ rw e refl
  | inr e ↦ rw e refl
]

index_call_with-found :
    (bs : List Binding) (i : Bool) (kind : Kind) (d : ℕ)
    → is_walking_failed (index_call_with_ bs i kind d) ≡ false
unfolding index_call_with_
index_call_with-found bs i c_function d = elim (Bool-cases (is_live bs c_function d)) [
  | inl e ↦ rw e (push_content-found (binding_at d bs))
  | inr e ↦ rw e refl
]
index_call_with-found bs i lua_reference d = call_with-found bs i lua_reference d
index_call_with-found bs i variable d = call_with-found bs i variable d
index_call_with-found bs i function d = refl

call_handler-found :
    (h : IndexHandler) (d : ℕ) (c : Call) (s : Storage)
    → is_walking_failed (call_handler h d c s).1 ≡ false
unfolding call_handler
call_handler-found (call_with i kind) d c s = call_with-found s.storage i kind d
call_handler-found (index_call_with i kind) d c s = index_call_with-found s.storage i kind d
call_handler-found index_target_fail d c s = push_field-found (s.tables.at c.indexed c.key)
call_handler-found new_index_target_fail d c s = refl
call_handler-found new_index_target_set d c s = refl

-- What is found is not taken for the failure of the walk.
abbrev pub is_answer : Option (Storage × Response) → Bool
is_answer none = true
is_answer (some r) = not (is_walking_failed r.1)

string_call-found :
    (i : Bool) (o : Option IndexCallStorage) (c : Call) (s : Storage)
    → is_answer (string_call i o c s) ≡ true
unfolding string_call call_entry
string_call-found i none c s = refl
string_call-found true (some t) c s =
    ap not (call_handler-found t.new_index_handler t.binding_data c s)
string_call-found false (some t) c s =
    ap not (call_handler-found t.index_handler t.binding_data c s)

auxiliary_call-found :
    (i : Bool) (k : ℕ) (o : Option ℕ) (c : Call) (s : Storage)
    → is_answer (auxiliary_call i k o c s) ≡ true
unfolding auxiliary_call use_auxiliary
auxiliary_call-found i k none c s = refl
auxiliary_call-found true k (some v) c s = refl
auxiliary_call-found false k (some v) c s = refl

pub found_call-found :
    (i : Bool) (k : Key) (c : Call) (s : Storage) → is_answer (found_call i k c s) ≡ true
unfolding found_call
found_call-found i (string k) c s = string_call-found i (s.string_keys k) c s
found_call-found i (other k) c s = auxiliary_call-found i k (s.auxiliary_keys k) c s
