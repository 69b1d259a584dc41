-- ===== src/Tests/Locks.antt =====
-- Examples for the theorems on variables and locks.
use rep_crec.Base.{true, ◌≡◌, refl, none, [], ◌∷◌, pos, arith, ok, ℤ_discrete, Map, Set}
use rep_crec.Global.{LockStatus, available_to_assign, is_odd, home_site}
use rep_crec.Variable.{
  new_variable, set_value, get_value, has_shared_lock, has_exclusive_lock,
  has_shared_lock_exclude_self, has_exclusive_lock_exclude_self,
}
use rep_crec.Variable.Locks.{IsFree}
use rep_crec.Variable.Versions.{get_value-set_value_from}
use rep_crec.Site.{is_write_available, get_variable}
use rep_crec.SiteManager.{get_site}
use rep_crec.LockManager.{is_waiting_for_others}
use rep_crec.LockManager.Acquire.{try_acquire_write_lock}
use rep_crec.LockManager.Acquire.Grant.{try_acquire_write_lock_grants}
use rep_crec.LockManager.Deadlock.{detect_deadlock}
use rep_crec.LockManager.Deadlock.Correct.{Answers, detect_deadlock-Answers}
use rep_crec.Tests.States.{a_site, a_variable, site_4, no_locks}

abbrev two_cycle : Map Set
two_cycle = (pos 1, pos 2 ∷ []) ∷ (pos 2, pos 3 ∷ pos 1 ∷ []) ∷ []

detect_deadlock-Answers_example : Answers two_cycle (detect_deadlock two_cycle)
detect_deadlock-Answers_example = detect_deadlock-Answers two_cycle

get_value-set_value_from_example :
    get_value (pos 9) (set_value (pos 7) (pos 9) (new_variable (pos 2))) ≡ ok (pos 7)
unfolding new_variable
get_value-set_value_from_example =
    get_value-set_value_from (pos 9) (pos 7) (pos 9) (new_variable (pos 2)) tt (omega arith)
      (omega arith)

abbrev granted_3 : LockStatus
granted_3 = record { site_id_set = pos 4 ∷ []; status = available_to_assign; owner_id_set = [] }

try_acquire_write_lock_grants_example :
    (is_write_available (a_site (pos 4) (a_variable (pos 3) (pos 30) none [])) ≡ true)
    × IsFree (a_variable (pos 3) (pos 30) none [])
unfolding try_acquire_write_lock is_odd home_site get_site is_write_available get_variable
    has_shared_lock has_exclusive_lock has_shared_lock_exclude_self has_exclusive_lock_exclude_self
    ℤ_discrete is_waiting_for_others
try_acquire_write_lock_grants_example =
    try_acquire_write_lock_grants (pos 1) (pos 3) (pos 4) no_locks (site_4 none [])
      (a_site (pos 4) (a_variable (pos 3) (pos 30) none [])) (a_variable (pos 3) (pos 30) none [])
      {st = granted_3} refl refl refl refl refl
