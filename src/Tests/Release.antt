-- ===== src/Tests/Release.antt =====
-- Examples for the theorems on giving up locks.
use rep_crec.Base.{
  ◌≡◌, refl, true, none, some, [], ◌∷◌, ℤ, pos, mem, find, find_or, ℤ_discrete, Map, Set, range,
}
use rep_crec.Global.{LockStatus, has_write_lock, is_odd, home_site}
use rep_crec.Variable.{
  has_shared_lock, has_exclusive_lock, has_shared_lock_exclude_self,
  has_exclusive_lock_exclude_self, remove_shared_owner, remove_exclusive_owner,
}
use rep_crec.Site.{is_write_available, get_variable, put_variable, deref_variable}
use rep_crec.SiteManager.{site_ids, get_site, on_copy, on_site, put_site}
use rep_crec.SiteManager.Copies.{copy}
use rep_crec.LockManager.{is_waiting, is_waiting_for_others}
use rep_crec.LockManager.Acquire.{try_acquire_write_lock}
use rep_crec.LockManager.Acquire.Outcome.{Settled, try_acquire_write_lock-Settled}
use rep_crec.LockManager.Release.{release_waiters, release_locks}
use rep_crec.LockManager.Release.Waiters.{release_waiters_both}
use rep_crec.LockManager.Release.Frees.{IsUnlocked, SameFor, sites_of, release_locks_frees}
use rep_crec.Tests.States.{site_4, site_1, lock_3, no_locks}

abbrev three_wait : Map Set
three_wait = (pos 3, pos 2 ∷ pos 1 ∷ []) ∷ []

release_waiters_both_example :
    is_waiting (pos 3) (release_waiters (pos 2) (release_waiters (pos 1) three_wait)) ≡ true
unfolding ℤ_discrete
release_waiters_both_example =
    release_waiters_both (pos 3) (pos 1) (pos 2) (pos 2 ∷ pos 1 ∷ []) three_wait (refl, tt) refl
      refl refl (λ e. cc) (λ e. cc) (λ e. cc)

release_locks_frees_example :
    ((vid sid : ℤ)
      → mem vid (find_or [] (pos 1) lock_3.lock_table) ≡ true
      → mem sid (sites_of vid) ≡ true
      → IsUnlocked (pos 1) (copy sid vid (site_4 none [])))
    × ((a b : ℤ)
        → SameFor (pos 1) (copy a b (site_4 (some (pos 1)) [])) (copy a b (site_4 none [])))
    × (find (pos 1) no_locks.lock_table ≡ none)
unfolding release_locks on_copy on_site get_site put_site put_variable deref_variable get_variable
    is_odd home_site has_shared_lock has_exclusive_lock remove_exclusive_owner remove_shared_owner
    ℤ_discrete
release_locks_frees_example =
    release_locks_frees (pos 1) lock_3 (site_4 (some (pos 1)) []) {l' = no_locks}
      {sites' = site_4 none []} refl

-- Only site 1 is looked at: its copy is locked by the transaction itself.
abbrev pub owned_2 : LockStatus
owned_2 = record { site_id_set = []; status = has_write_lock; owner_id_set = [] }

try_acquire_write_lock-Settled_example : Settled owned_2
unfolding try_acquire_write_lock is_odd site_ids range get_site is_write_available get_variable
    has_shared_lock has_exclusive_lock has_shared_lock_exclude_self has_exclusive_lock_exclude_self
    ℤ_discrete is_waiting_for_others
try_acquire_write_lock-Settled_example =
    try_acquire_write_lock-Settled (pos 1) (pos 2) no_locks (site_1 (some (pos 1)) [])
      {st = owned_2} refl refl
