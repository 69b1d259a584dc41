-- ===== src/Tests/Sites.antt =====
-- Examples for the theorems on the availability of sites and on the writes that lock them.
use rep_crec.Variable.{
  has_exclusive_lock, has_shared_lock_exclude_self, has_exclusive_lock_exclude_self, new_variable,
  has_shared_lock,
}
use rep_crec.Site.{get_variable, new_site, is_write_available, set_unavailable, deref_variable}
use rep_crec.Transaction.{is_written_into_site}
use rep_crec.Base.{
  ◌+ℤ◌, ℤ_discrete, find, ◌≡◌, ◌≢◌, refl, true, false, some, [], ◌∷◌, ℤ, pos, mem, range, arith,
}
use rep_crec.Global.{home_site, is_odd, LockStatus, available_to_assign, var_count}
use rep_crec.SiteManager.{put_site, get_site, on_copy, on_site, site_ids}
use rep_crec.SiteManager.Copies.{copy}
use rep_crec.LockManager.Assign.Locks.{owns}
use rep_crec.LockManager.Hold.{locked}
use rep_crec.LockManager.Release.Sites.{availability, writable}
use rep_crec.Request.Exec.{exec_fail, exec_recovery}
use rep_crec.Request.Exec.Down.{exec_fail-availability, exec_fail-exec_recovery}
use rep_crec.Request.Exec.Recover.{lives_only_at}
use rep_crec.Request.Write.{exec_write}
use rep_crec.Request.Write.New.{noted, exec_write-owns}
use rep_crec.TransactionManager.{TransactionManager, initial}
use rep_crec.TransactionManager.Commit.Install.{readable}
use rep_crec.Tests.States.{after, holding, a_transaction}

exec_fail-availability_example :
    let tm' = after (exec_fail (pos 4) holding) in
    (writable (pos 4) tm'.site_manager ≡ false)
    × ((b : ℤ) → mem b (range 1 var_count) ≡ true → readable (pos 4) b tm'.site_manager ≡ false)
    × ((a : ℤ) → a ≢ pos 4 → availability a tm'.site_manager ≡ availability a holding.site_manager)
unfolding exec_fail on_site ℤ_discrete is_written_into_site is_odd on_copy home_site deref_variable
    set_unavailable
exec_fail-availability_example =
    exec_fail-availability (pos 4) holding {tm' = after (exec_fail (pos 4) holding)} refl

-- Site 4 has failed.
abbrev failed_4 : TransactionManager
unfolding exec_fail
failed_4 = after (exec_fail (pos 4) holding)

exec_fail-exec_recovery_example :
    readable (pos 4) (pos 3) (after (exec_recovery (pos 4) failed_4)).site_manager
    ≡ lives_only_at (pos 4) (pos 3)
unfolding exec_fail exec_recovery failed_4 on_site ℤ_discrete is_written_into_site is_odd on_copy
    home_site deref_variable set_unavailable ◌+ℤ◌
exec_fail-exec_recovery_example =
    exec_fail-exec_recovery 3 2 holding {tm' = failed_4}
      {tm'' = after (exec_recovery (pos 4) failed_4)} (omega arith) (omega arith) refl refl

-- The first state, with transaction 1.
abbrev begun : TransactionManager
unfolding initial
begun = record initial {
  transactions = (pos 1, a_transaction (pos 1) (pos 10001) []) ∷ [];
  transactions_set = (pos 10001, pos 1) ∷ [];
}

-- All ten sites are named.
abbrev all_named : LockStatus
unfolding site_ids range
all_named = record {
  site_id_set = pos 10 ∷ pos 9 ∷ pos 8 ∷ pos 7 ∷ pos 6 ∷ pos 5 ∷ pos 4 ∷ pos 3 ∷ pos 2 ∷ pos 1 ∷ [];
  status = available_to_assign;
  owner_id_set = [];
}

exec_write-owns_example :
    let tm' = after (exec_write (pos 10002) (pos 1) (pos 2) (pos 5) begun) in
    ((u : ℤ) → locked u (pos 7) (pos 2) begun.site_manager ≡ false)
    × (owns (pos 1) (copy (pos 7) (pos 2) tm'.site_manager) ≡ true)
    × (noted (pos 7) (pos 2) (find (pos 1) tm'.transactions) ≡ some (pos 5))
unfolding exec_write initial is_odd get_site ℤ_discrete is_write_available new_site get_variable
    has_shared_lock new_variable has_exclusive_lock_exclude_self has_shared_lock_exclude_self
    has_exclusive_lock deref_variable put_site
exec_write-owns_example =
    exec_write-owns (pos 10002) (pos 1) (pos 2) (pos 5) (pos 7) begun {st = all_named}
      {tm' = after (exec_write (pos 10002) (pos 1) (pos 2) (pos 5) begun)} refl refl refl refl refl
      refl refl
