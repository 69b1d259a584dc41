-- ===== src/Variable.antt =====
-- repcrec/variable: one copy of a variable at one site, with its versions and its locks. The source
-- reads of a lock's owner only the transaction id, which never changes: owners are ids here.

pub mod Versions
pub mod Locks
pub mod Timeline
use rep_crec.Base.{
  ◌+◌, ◌*◌, Bool, true, false, not, ◌&&◌, Option, none, some, List, [], ◌∷◌, ℤ, pos, negsuc,
  minus_one, ◌==ℤ◌, ltb_ℤ, if◌then◌else◌, Result, ok, or_fail, before_begin, Set, mem, remove,
}

-- `std::map<timestamp_t, var_t>`, keys ascending.
abbrev pub Versions : Type 0
Versions = List (ℤ × ℤ)

pub record Variable : Type 0 where
  pub id : ℤ
  pub value : ℤ
  pub versions : Versions
  pub exclusive_lock_owner : Option ℤ
  pub shared_lock_owners : Set

-- `var_id * 10`
unfoldable pub times_ten : ℤ → ℤ
times_ten (pos n) = pos (n * 10)
times_ten (negsuc n) = negsuc (n * 10 + 9)

-- `versions_[timestamp] = value`
unfoldable pub set_version : ℤ → ℤ → Versions → Versions
set_version t v [] = (t, v) ∷ []
set_version t v ((u, w) ∷ vs) =
    if t ==ℤ u
    then (u, v) ∷ vs
    else if ltb_ℤ t u
    then (t, v) ∷ (u, w) ∷ vs
    else (u, w) ∷ set_version t v vs

-- `prev(versions_.upper_bound(timestamp))`, from the entry before the first one left
unfoldable pub last_until : ℤ → Option ℤ → Versions → Option ℤ
last_until t before [] = before
last_until t before ((u, w) ∷ vs) = elim (ltb_ℤ t u) [
  | true ↦ before
  | false ↦ last_until t (some w) vs
]

unfoldable pub new_variable : ℤ → Variable
unfolding times_ten set_version
new_variable var_id = record {
  id = var_id;
  value = times_ten var_id;
  versions = set_version minus_one (times_ten var_id) [];
  exclusive_lock_owner = none;
  shared_lock_owners = [];
}

unfoldable pub add_shared_transaction : ℤ → Variable → Variable × Bool
add_shared_transaction tran_id v =
    if mem tran_id v.shared_lock_owners
    then (v, false)
    else (record v { shared_lock_owners = tran_id ∷ v.shared_lock_owners }, true)

unfoldable pub set_exclusive_transaction : ℤ → Variable → Variable × Bool
set_exclusive_transaction tran_id v = elim v.exclusive_lock_owner [
  | some owner ↦ (v, false)
  | none ↦ (record v { exclusive_lock_owner = some tran_id }, true)
]

unfoldable pub remove_exclusive_owner : Variable → Variable
remove_exclusive_owner v = record v { exclusive_lock_owner = none }

unfoldable pub remove_shared_owner : ℤ → Variable → Variable × Bool
remove_shared_owner tran_id v =
    if not (mem tran_id v.shared_lock_owners)
    then (v, false)
    else (record v { shared_lock_owners = remove tran_id v.shared_lock_owners }, true)

-- `get_value()` has -1 for its argument.
unfoldable pub get_value : ℤ → Variable → Result ℤ
unfolding last_until
get_value timestamp v =
    if timestamp ==ℤ minus_one
    then ok v.value
    else or_fail (last_until timestamp none v.versions) before_begin

unfoldable pub set_value : ℤ → ℤ → Variable → Variable
unfolding set_version
set_value value timestamp v = record v {
  value = value;
  versions = set_version timestamp value v.versions;
}

unfoldable pub has_shared_lock : ℤ → Variable → Bool
has_shared_lock tran_id v = mem tran_id v.shared_lock_owners

unfoldable pub has_exclusive_lock : ℤ → Variable → Bool
has_exclusive_lock tran_id v = elim v.exclusive_lock_owner [
  | none ↦ false
  | some owner ↦ owner ==ℤ tran_id
]

abbrev is_empty : Set → Bool
is_empty [] = true
is_empty (x ∷ xs) = false

unfoldable pub has_shared_lock_exclude_self : ℤ → Variable → Bool
has_shared_lock_exclude_self tran_id v =
    not (is_empty v.shared_lock_owners) && not (mem tran_id v.shared_lock_owners)

unfoldable pub has_exclusive_lock_exclude_self : ℤ → Variable → Bool
has_exclusive_lock_exclude_self tran_id v = elim v.exclusive_lock_owner [
  | none ↦ false
  | some owner ↦ not (owner ==ℤ tran_id)
]
