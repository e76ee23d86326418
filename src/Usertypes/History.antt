-- ===== src/Usertypes/History.antt =====
-- What can happen to the storage of a usertype, and the members that it has then.
use sol.Base.{ℕ, ◌≡◌, Bool, true, false, Option, none}
use sol.Usertypes.Storage.{
  Key, string, other, Submetatable, lua_reference, Binding, Bases, no_bases, Storage, binding_at,
}
use sol.Usertypes.Setting.{
  set_string, set_call_construction, set_reference, set_untyped, update_bases, register_usertype,
}
use sol.Usertypes.Indexing.{Call, use_auxiliary}
use sol.Usertypes.Members.{Members, with_member, IsMembers}
use sol.Usertypes.Refinement.{set_string-IsMembers, set_other-IsMembers}
use sol.Usertypes.Starting.{no_members, register_usertype-IsMembers, set_call-IsMembers}
use sol.Usertypes.Deriving.{update_bases-IsMembers}

-- One call of `set`, from C++ or from Lua code, with a new binding at an address that is free, or an
-- assignment of Lua code to a key that is not a string.
pub data Step (s : Storage) : Storage → Type 0 where
  sets : (k : ℕ) (b : Binding) → binding_at b.address s.storage ≡ none → Step s (set_string k b s)
  sets_call :
      (b : Binding) → binding_at b.address s.storage ≡ none → Step s (set_call_construction b s)
  sets_reference :
      (k : Key) (v p : ℕ) → binding_at p s.storage ≡ none → Step s (set_reference k v p s)
  assigns_missing :
      (k : Key) (v p : ℕ) → binding_at p s.storage ≡ none → Step s (set_untyped k v p s)
  sets_bases : (bases : Bases) (check cast : ℕ) → Step s (update_bases bases check cast s)
  assigns :
      (is_new_index : Bool) (k v : ℕ) (c : Call) → Step s (use_auxiliary is_new_index k v c s).0

pub data Reached : Storage → Type 0 where
  registered :
      (bases : Bases) (intrinsic : Submetatable → Key → Option ℕ)
      → Reached (register_usertype bases intrinsic)
  changed : {s u : Storage} → Reached s → Step s u → Reached u

set_reference-IsMembers :
    (s : Storage) (m : Members) (k : Key) (v p : ℕ)
    → IsMembers s m
    → binding_at p s.storage ≡ none
    → (n : Members) × IsMembers (set_reference k v p s) n
unfolding set_reference
set_reference-IsMembers s m (string k) v p h fresh =
    let b : Binding = record { address = p; kind = lua_reference; content = v } in
    (with_member k b m, set_string-IsMembers s m k b h fresh)
set_reference-IsMembers s m (other k) v p h fresh = (m, set_other-IsMembers s m k v p h)

-- The bases that the code of a class knows are no matter of its members.
own_bases-IsMembers :
    (s : Storage) (m : Members) (bases : Bases)
    → IsMembers s m
    → IsMembers (record s { own_bases = bases }) m
own_bases-IsMembers s m bases h = record {
  keys = h.keys;
  live = h.live;
  distinct = h.distinct;
  bases = h.bases;
  static_bases = h.static_bases;
  methods = h.methods;
  calls = h.calls;
  fast = h.fast;
}

set_untyped-IsMembers :
    (s : Storage) (m : Members) (k : Key) (v p : ℕ)
    → IsMembers s m
    → binding_at p s.storage ≡ none
    → (n : Members) × IsMembers (set_untyped k v p s) n
unfolding set_untyped
set_untyped-IsMembers s m k v p h fresh =
    let untyped : Storage = record s { own_bases = no_bases } in
    let (n, after) =
      set_reference-IsMembers untyped m k v p (own_bases-IsMembers s m no_bases h) fresh in
    (n, own_bases-IsMembers (set_reference k v p untyped) n s.own_bases after)

use_auxiliary-IsMembers :
    (s : Storage) (m : Members) (is_new_index : Bool) (k v : ℕ) (c : Call)
    → IsMembers s m
    → IsMembers (use_auxiliary is_new_index k v c s).0 m
unfolding use_auxiliary
use_auxiliary-IsMembers s m true k v c h = record {
  keys = h.keys;
  live = h.live;
  distinct = h.distinct;
  bases = h.bases;
  static_bases = h.static_bases;
  methods = h.methods;
  calls = h.calls;
  fast = h.fast;
}
use_auxiliary-IsMembers s m false k v c h = h

Step-IsMembers :
    {s u : Storage} (m : Members) → IsMembers s m → Step s u → (n : Members) × IsMembers u n
Step-IsMembers {s = s} m h (sets k b fresh) =
    (with_member k b m, set_string-IsMembers s m k b h fresh)
Step-IsMembers {s = s} m h (sets_call b fresh) = (m, set_call-IsMembers s m b h fresh)
Step-IsMembers {s = s} m h (sets_reference k v p fresh) = set_reference-IsMembers s m k v p h fresh
Step-IsMembers {s = s} m h (assigns_missing k v p fresh) = set_untyped-IsMembers s m k v p h fresh
Step-IsMembers {s = s} m h (sets_bases bases check cast) =
    (m, update_bases-IsMembers s m bases check cast h)
Step-IsMembers {s = s} m h (assigns i k v c) = (m, use_auxiliary-IsMembers s m i k v c h)

pub Reached-IsMembers : {s : Storage} → Reached s → (m : Members) × IsMembers s m
Reached-IsMembers (registered bases intrinsic) =
    (no_members, register_usertype-IsMembers bases intrinsic)
Reached-IsMembers (changed r step) = let (m, h) = Reached-IsMembers r in Step-IsMembers m h step
