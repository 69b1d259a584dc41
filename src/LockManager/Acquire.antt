-- ===== src/LockManager/Acquire.antt =====
-- Asking for a lock: `try_acquire_write_lock` and `try_acquire_read_lock`.
pub mod Loop
pub mod Owners
pub mod Grant
pub mod Cover
pub mod Outcome
use rep_crec.Base.{
  Bool, false, not, ◌&&◌, ◌||◌, Option, none, some, List, [], ◌∷◌, ℤ, Set, add, if◌then◌else◌,
  Result, ok, ◌>>=◌,
}
use rep_crec.Global.{
  LockStatus, new_lock_status, has_read_lock, has_write_lock, need_to_wait, site_unavailable,
  has_read_write_lock, available_to_assign, is_odd, home_site,
}
use rep_crec.Variable.{
  Variable, has_shared_lock, has_exclusive_lock, has_shared_lock_exclude_self,
  has_exclusive_lock_exclude_self,
}
use rep_crec.Site.{is_read_available, is_write_available, get_variable, deref_variable}
use rep_crec.SiteManager.{SiteManager, site_ids, get_site}
use rep_crec.LockManager.{LockManager, is_waiting_for_others}

-- One round of a loop: go on, or return from the function.
pub data Flow (A : Type 0) : Type 0 where
  next : A → Flow A
  return : A → Flow A

-- `var != nullptr and test(var)`
abbrev pub holds : (Variable → Bool) → Option Variable → Bool
holds test none = false
holds test (some v) = test v

unfoldable pub add_owner : Option ℤ → Set → Set
add_owner none s = s
add_owner (some owner) s = add owner s

unfoldable pub add_all : Set → Set → Set
add_all [] s = s
add_all (owner ∷ owners) s = add_all owners (add owner s)

-- The three `if`s that collect whom a transaction waits for.
unfoldable pub collect_owners : ℤ → Variable → Set → Set
unfolding add_owner add_all
collect_owners tran_id v s =
    let s1 =
      if has_exclusive_lock_exclude_self tran_id v then add_owner v.exclusive_lock_owner s else s in
    let s2 =
      if has_shared_lock_exclude_self tran_id v then add_all v.shared_lock_owners s1 else s1 in
    if has_shared_lock tran_id v then add tran_id s2 else s2

unfoldable pub collect : ℤ → Option Variable → Set → Set
unfolding collect_owners
collect tran_id none s = s
collect tran_id (some v) s = collect_owners tran_id v s

-- The test of the odd branch names the shared locks twice, and no exclusive lock.
unfoldable pub can_promote_odd : ℤ → Bool → Variable → Bool
can_promote_odd tran_id waited v =
    has_shared_lock tran_id v
    && (not (has_shared_lock_exclude_self tran_id v)
        && (not (has_shared_lock_exclude_self tran_id v) && not waited))

unfoldable pub can_promote : ℤ → Bool → Variable → Bool
can_promote tran_id waited v =
    has_shared_lock tran_id v
    && (not (has_shared_lock_exclude_self tran_id v)
        && (not (has_exclusive_lock_exclude_self tran_id v) && not waited))

unfoldable pub must_wait : ℤ → Variable → Bool
must_wait tran_id v =
    has_exclusive_lock_exclude_self tran_id v
    || (has_shared_lock_exclude_self tran_id v || has_shared_lock tran_id v)

-- The odd branch, at the copy of a site that is up.
unfoldable pub write_odd : ℤ → Bool → ℤ → Option Variable → LockStatus
unfolding can_promote_odd must_wait collect
write_odd tran_id waited site_id var =
    if holds (can_promote_odd tran_id waited) var
    then record { site_id_set = site_id ∷ []; status = has_read_lock; owner_id_set = [] }
    else if holds (must_wait tran_id) var
    then record { site_id_set = []; status = need_to_wait; owner_id_set = collect tran_id var [] }
    else if holds (has_exclusive_lock tran_id) var
    then record { site_id_set = []; status = has_write_lock; owner_id_set = [] }
    else record { site_id_set = site_id ∷ []; status = available_to_assign; owner_id_set = [] }

-- One round of the even branch, at the copy of a site that is up.
unfoldable pub write_copy : ℤ → Bool → ℤ → Option Variable → LockStatus → Flow LockStatus
unfolding can_promote must_wait collect
write_copy tran_id waited site_id var st =
    let added = add site_id st.site_id_set in
    if holds (can_promote tran_id waited) var
    then next (record st { site_id_set = added; status = has_read_lock })
    else if holds (must_wait tran_id) var
    then return (record {
      site_id_set = [];
      status = need_to_wait;
      owner_id_set = collect tran_id var st.owner_id_set;
    })
    else if holds (has_exclusive_lock tran_id) var
    then return (record st { site_id_set = []; status = has_write_lock })
    else next (record st { site_id_set = added })

unfoldable pub write_round : SiteManager → ℤ → Bool → ℤ → ℤ → LockStatus → Result (Flow LockStatus)
unfolding write_copy
write_round sites tran_id waited var_id sid st = do
  s ← get_site sid sites
  ok (
      if not (is_write_available s)
      then next st
      else write_copy tran_id waited sid (get_variable var_id s) st)

unfoldable pub write_loop : SiteManager → ℤ → Bool → ℤ → List ℤ → LockStatus → Result LockStatus
unfolding write_round
write_loop sites tran_id waited var_id [] st = ok st
write_loop sites tran_id waited var_id (sid ∷ sids) st =
    write_round sites tran_id waited var_id sid st
    >>= elim [ next st' ↦ write_loop sites tran_id waited var_id sids st' | return st' ↦ ok st' ]

unfoldable pub try_write_odd : SiteManager → ℤ → Bool → ℤ → Result LockStatus
unfolding write_odd
try_write_odd sites tran_id waited var_id = do
  s ← get_site (home_site var_id) sites
  ok (
      if not (is_write_available s)
      then record new_lock_status { status = site_unavailable }
      else write_odd tran_id waited (home_site var_id) (get_variable var_id s))

unfoldable pub try_write_even : SiteManager → ℤ → Bool → ℤ → Result LockStatus
unfolding write_loop site_ids
try_write_even sites tran_id waited var_id =
    write_loop sites tran_id waited var_id site_ids
      (record new_lock_status { status = available_to_assign })

unfoldable pub try_acquire_write_lock : ℤ → ℤ → LockManager → SiteManager → Result LockStatus
unfolding try_write_odd try_write_even
try_acquire_write_lock tran_id var_id l sites =
    if is_odd var_id
    then try_write_odd sites tran_id (is_waiting_for_others tran_id l) var_id
    else try_write_even sites tran_id (is_waiting_for_others tran_id l) var_id

-- One round of the read lock's even branch.
unfoldable pub read_copy : ℤ → ℤ → Variable → LockStatus → Flow LockStatus
read_copy tran_id sid v st =
    if has_exclusive_lock_exclude_self tran_id v
    then return (record st { site_id_set = []; status = need_to_wait })
    else if has_exclusive_lock tran_id v || has_shared_lock tran_id v
    then return (record st { site_id_set = []; status = has_read_write_lock })
    else next (record st { site_id_set = add sid st.site_id_set })

unfoldable pub read_round : SiteManager → ℤ → ℤ → ℤ → LockStatus → Result (Flow LockStatus)
unfolding read_copy
read_round sites tran_id var_id sid st = do
  s ← get_site sid sites
  if not (is_write_available s)
      then ok (next st)
      else (deref_variable var_id s >>= λ v. ok (read_copy tran_id sid v st))

unfoldable pub read_loop : SiteManager → ℤ → ℤ → List ℤ → LockStatus → Result LockStatus
unfolding read_round
read_loop sites tran_id var_id [] st = ok (record st { status = available_to_assign })
read_loop sites tran_id var_id (sid ∷ sids) st =
    read_round sites tran_id var_id sid st
    >>= elim [ next st' ↦ read_loop sites tran_id var_id sids st' | return st' ↦ ok st' ]

unfoldable pub read_odd : ℤ → ℤ → Variable → LockStatus
read_odd tran_id site_id v =
    if has_exclusive_lock_exclude_self tran_id v
    then record new_lock_status { status = need_to_wait }
    else if has_exclusive_lock tran_id v || has_shared_lock tran_id v
    then record new_lock_status { status = has_read_write_lock }
    else record new_lock_status { site_id_set = site_id ∷ []; status = available_to_assign }

unfoldable pub try_read_odd : SiteManager → ℤ → ℤ → Result LockStatus
unfolding read_odd
try_read_odd sites tran_id var_id = do
  s ← get_site (home_site var_id) sites
  if not (is_read_available var_id s)
      then ok (record new_lock_status { status = site_unavailable })
      else (deref_variable var_id s >>= λ v. ok (read_odd tran_id (home_site var_id) v))

-- The source calls it nowhere.
unfoldable pub try_acquire_read_lock : ℤ → ℤ → SiteManager → Result LockStatus
unfolding try_read_odd read_loop site_ids
try_acquire_read_lock tran_id var_id sites =
    if is_odd var_id
    then try_read_odd sites tran_id var_id
    else read_loop sites tran_id var_id site_ids new_lock_status
