-- ===== src/Usertypes/Indexing.antt =====
-- How a read or an assignment of a member is answered: `self_index_call` and the functions it calls.
use sol.Base.{ℕ, Bool, true, false, not, ◌==◌, if◌then◌else◌, List, Option, none, some}
use sol.Usertypes.Storage.{
  Key, string, other, Submetatable, Kind, c_function, lua_reference, variable, function, Binding,
  IndexHandler, call_with, index_call_with, index_target_fail, new_index_target_fail,
  new_index_target_set, IndexCallStorage, NewIndexCallStorage, Bases, no_bases, base, LuaValue,
  raw_function, lua_value, closure, Storage, binding_at,
}
use sol.Usertypes.Setting.{set_untyped}

-- What comes of it: a binding is called, with `is_index`; a value is pushed; nothing is; an error is
-- raised. `walking_failed` is `base_walking_failed_index`, and `undefined` the use of a pointer to no
-- binding of the type.
pub data Response : Type 0 where
  called : Bool → ℕ → Response
  pushed : LuaValue → Response
  nothing raised walking_failed undefined : Response

-- What is on the stack: the table or the metatable of the object that is indexed, the key and the value,
-- and what the allocator would return next.
pub record Call : Type 0 where
  pub indexed : Submetatable
  pub key : Key
  pub assigned : ℕ
  pub next : ℕ

abbrev pub kind_number : Kind → ℕ
kind_number c_function = 0
kind_number lua_reference = 1
kind_number variable = 2
kind_number function = 3

abbrev pub has_kind : Option Binding → Kind → Bool
has_kind none kind = false
has_kind (some b) kind = kind_number b.kind == kind_number kind

-- The pointer points to a binding of a kind.
unfoldable pub is_live : List Binding → Kind → ℕ → Bool
is_live bs kind d = has_kind (binding_at d bs) kind

-- `*static_cast<F*>(target)`, where F is a `lua_CFunction`.
unfoldable pub push_content : Option Binding → Response
push_content none = undefined
push_content (some b) = pushed (raw_function b.content)

unfoldable pub call_with_ : List Binding → Bool → Kind → ℕ → Response
call_with_ bs is_index kind d = if is_live bs kind d then called is_index d else undefined

unfoldable pub index_call_with_ : List Binding → Bool → Kind → ℕ → Response
index_call_with_ bs is_index c_function d =
    if is_live bs c_function d then push_content (binding_at d bs) else undefined
index_call_with_ bs is_index lua_reference d = call_with_ bs is_index lua_reference d
index_call_with_ bs is_index variable d = call_with_ bs is_index variable d
index_call_with_ bs is_index function d = pushed (closure is_index function d)

unfoldable pub push_field : Option LuaValue → Response
push_field none = nothing
push_field (some v) = pushed v

-- The call of a function pointer of `index_call_storage`.
unfoldable pub call_handler : IndexHandler → ℕ → Call → Storage → Storage × Response
call_handler (call_with is_index kind) d c self = (self, call_with_ self.storage is_index kind d)
call_handler (index_call_with is_index kind) d c self =
    (self, index_call_with_ self.storage is_index kind d)
call_handler index_target_fail d c self = (self, push_field (self.tables.at c.indexed c.key))
call_handler new_index_target_fail d c self = (self, raised)
call_handler new_index_target_set d c self = (set_untyped c.key c.assigned c.next self, nothing)

unfoldable pub call_entry : Bool → IndexCallStorage → Call → Storage → Storage × Response
call_entry is_new_index target c self =
    if is_new_index
    then call_handler target.new_index_handler target.binding_data c self
    else call_handler target.index_handler target.binding_data c self

unfoldable pub call_base : Bool → NewIndexCallStorage → Call → Storage → Storage × Response
call_base is_new_index target c self =
    if is_new_index
    then call_handler target.new_index_handler target.new_binding_data c self
    else call_handler target.index_handler target.binding_data c self

unfoldable pub use_auxiliary : Bool → ℕ → ℕ → Call → Storage → Storage × Response
use_auxiliary is_new_index k v c self =
    if is_new_index
    then (
      record self {
        auxiliary_keys = λ l. if l == k then some c.assigned else self.auxiliary_keys l;
      },
      nothing,
    )
    else (self, pushed (lua_value v))

-- The part of `self_index_call` that looks in the storage itself.
unfoldable pub string_call :
    Bool → Option IndexCallStorage → Call → Storage → Option (Storage × Response)
string_call is_new_index none c self = none
string_call is_new_index (some target) c self = some (call_entry is_new_index target c self)

unfoldable pub auxiliary_call : Bool → ℕ → Option ℕ → Call → Storage → Option (Storage × Response)
auxiliary_call is_new_index k none c self = none
auxiliary_call is_new_index k (some v) c self = some (use_auxiliary is_new_index k v c self)

unfoldable pub found_call : Bool → Key → Call → Storage → Option (Storage × Response)
found_call is_new_index (string k) c self = string_call is_new_index (self.string_keys k) c self
found_call is_new_index (other k) c self =
    auxiliary_call is_new_index k (self.auxiliary_keys k) c self

-- The usertypes that are registered, by the numbers of their classes.
abbrev pub Usertypes : Type 0
Usertypes = ℕ → Option Storage

abbrev pub with_storage : ℕ → Storage → Usertypes → Usertypes
with_storage n self us m = if m == n then some self else us m

-- The walk through the bases: the storages, `keep_going` and `base_result`.
pub record Walk : Type 0 where
  pub usertypes : Usertypes
  pub keep_going : Bool
  pub base_result : Response

abbrev pub is_walking_failed : Response → Bool
is_walking_failed walking_failed = true
is_walking_failed _ = false

-- Why `self_index_call` runs: `base_walking`, `from_named_metatable`, or neither.
pub data Mode : Type 0 where
  base_walking from_named_metatable from_object : Mode

-- What is left when no base has answered.
unfoldable pub fail_call : Bool → Mode → Call → Storage → Storage × Response
fail_call is_new_index base_walking c self = (self, walking_failed)
fail_call is_new_index from_named_metatable c self =
    call_base is_new_index self.static_base_index c self
fail_call is_new_index from_object c self = call_base is_new_index self.base_index c self

-- What `self_index_call` of the class `n` does with what it has found. `walked` is the walk through its
-- bases.
unfoldable pub answer_with :
    Option (Storage × Response)
    → Bool
    → Mode
    → ℕ
    → Call
    → Walk
    → Usertypes
    → Storage
    → Usertypes × Response
answer_with (some found) is_new_index mode n c walked us self = (with_storage n found.0 us, found.1)
answer_with none is_new_index mode n c walked us self =
    if not walked.keep_going
    then (walked.usertypes, walked.base_result)
    else let last = fail_call is_new_index mode c self in
      (with_storage n last.0 walked.usertypes, last.1)

unfoldable pub answer : Bool → Mode → ℕ → Call → Walk → Usertypes → Storage → Usertypes × Response
answer is_new_index mode n c walked us self =
    answer_with (found_call is_new_index c.key c self) is_new_index mode n c walked us self

-- What `base_walk_index` does with `maybe_base_storage`. `walked` is the walk through the base's own
-- bases.
unfoldable pub walk_maybe : Option Storage → Bool → ℕ → Call → Walk → Walk → Walk
walk_maybe none is_new_index n c walked w = w
walk_maybe (some base_storage) is_new_index n c walked w =
    let result = answer is_new_index base_walking n c walked w.usertypes base_storage in
    record { usertypes = result.0; base_result = result.1; keep_going = is_walking_failed result.1 }

unfoldable pub base_walk_index : Bool → ℕ → Call → Walk → Walk → Walk
base_walk_index is_new_index n c walked w =
    if not w.keep_going then w else walk_maybe (w.usertypes n) is_new_index n c walked w

abbrev pub start_walk : Usertypes → Walk
start_walk us = record { usertypes = us; keep_going = true; base_result = walking_failed }

unfoldable pub walk_bases : Bool → Bases → Call → Walk → Walk
walk_bases is_new_index no_bases c w = w
walk_bases is_new_index (base n its rest) c w =
    let walked = walk_bases is_new_index its c (start_walk w.usertypes) in
    walk_bases is_new_index rest c (base_walk_index is_new_index n c walked w)

unfoldable pub self_index_call :
    Bool → Mode → ℕ → Bases → Call → Usertypes → Storage → Usertypes × Response
self_index_call is_new_index mode n bases c us self =
    answer is_new_index mode n c (walk_bases is_new_index bases c (start_walk us)) us self
