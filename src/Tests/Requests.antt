-- ===== src/Tests/Requests.antt =====
-- Examples for the theorems on requests and on the transaction manager.
use rep_crec.Base.{
  find_or, ◌≡◌, refl, true, ◌&&◌, ◌||◌, none, some, [], ◌∷◌, pos, arith, ok, err, invalid_argument,
  find, negsuc, ◌+ℤ◌, ◌==ℤ◌, ℤ_discrete, range,
}
use rep_crec.Global.{is_odd, home_site}
use rep_crec.Variable.{
  get_value, set_exclusive_transaction, new_variable, has_shared_lock, has_exclusive_lock,
  set_value, set_version, has_shared_lock_exclude_self, has_exclusive_lock_exclude_self,
  remove_shared_owner, remove_exclusive_owner,
}
use rep_crec.Site.{
  new_site, is_write_available, is_read_available, get_variable, put_variable, deref_variable,
  set_all, assign_var, set_read_available,
}
use rep_crec.Site
use rep_crec.SiteManager.{deref_copy, SiteManager, site_ids, get_site, on_copy, on_site, put_site}
use rep_crec.SiteManager.Copies.{copy}
use rep_crec.Transaction.{is_written_into_site}
use rep_crec.LockManager.{is_waiting_for_lock, is_waiting_for_others, assign_wait_for_graph}
use rep_crec.LockManager.Acquire.{try_acquire_write_lock}
use rep_crec.LockManager.Release.{release_locks}
use rep_crec.Request.{write_request, read_request, already_exclusive_lock, waiting_at}
use rep_crec.Request.Write.{exec_write}
use rep_crec.Request.Write.Repeat.{exec_write_again}
use rep_crec.Request.Read.{exec_read}
use rep_crec.Request.Read.Unrecorded.{exec_read-transactions}
use rep_crec.Request.Read.Locked.{exec_read_own_even, exec_read_own_odd, exec_read_second}
use rep_crec.Request.Exec.{exec_fail, exec_recovery}
use rep_crec.Request.Exec.Fail.{exec_fail-transactions}
use rep_crec.Request.Exec.Recover.{exec_recovery-readable, lives_only_at}
use rep_crec.TransactionManager.{
  initial, TransactionManager, insert_request, is_transaction_waiting_for_site,
}
use rep_crec.TransactionManager.Commit.{apply_records}
use rep_crec.TransactionManager.Commit.Install.{install, readable, apply_records-installs}
use rep_crec.TransactionManager.Execute.{retry_blocked}
use rep_crec.TransactionManager.Queue.{retry_blocked_loses}
use rep_crec.Tests.States.{
  a_site, after, holding, retried, site_4, site_1, lock_3, no_locks, a_variable, a_transaction,
  record_3, state,
}
use rep_crec.Tests.Release.{owned_2}

exec_write_again_example :
    exec_write (pos 10003) (pos 1) (pos 2) (pos 8) (state no_locks (site_1 (some (pos 1)) []) [])
    ≡ ok (
      tt,
      record (state no_locks (site_1 (some (pos 1)) []) []) {
        log = (pos 10002, already_exclusive_lock (pos 1) (pos 2)) ∷ [];
      },
    )
unfolding try_acquire_write_lock is_odd site_ids range get_site is_write_available get_variable
    has_shared_lock has_exclusive_lock has_shared_lock_exclude_self has_exclusive_lock_exclude_self
    ℤ_discrete is_waiting_for_others
exec_write_again_example =
    exec_write_again (pos 10003) (pos 1) (pos 2) (pos 8)
      (state no_locks (site_1 (some (pos 1)) []) []) {st = owned_2} refl refl refl

-- Transaction 1 has begun, in the first state.
abbrev begun : TransactionManager
unfolding initial
begun = record initial {
  transactions = (pos 1, a_transaction (pos 1) (pos 10001) []) ∷ [];
  transactions_set = (pos 10001, pos 1) ∷ [];
}

-- It has locked variable 2 at the ten sites.
abbrev wrote_2 : TransactionManager
unfolding exec_write begun
wrote_2 = after (exec_write (pos 10002) (pos 1) (pos 2) (pos 7) begun)

exec_read_own_even_example : exec_read (pos 10003) (pos 1) (pos 2) wrote_2 ≡ err invalid_argument
unfolding initial begun wrote_2 exec_write exec_read ℤ_discrete is_odd home_site get_site
    is_write_available new_site get_variable has_shared_lock new_variable
    has_exclusive_lock_exclude_self has_shared_lock_exclude_self has_exclusive_lock deref_variable
    put_site put_variable on_site on_copy site_ids range ◌+ℤ◌ set_exclusive_transaction
exec_read_own_even_example =
    exec_read_own_even (pos 10003) (pos 1) (pos 2) wrote_2
      (find_or (a_transaction (pos 1) (pos 10001) []) (pos 1) wrote_2.transactions) refl refl refl
      refl refl

exec_read-transactions_example :
    (after (exec_read (pos 10003) (pos 1) (pos 2) begun)).transactions ≡ begun.transactions
unfolding initial begun wrote_2 exec_write exec_read ℤ_discrete is_odd home_site get_site
    is_write_available new_site get_variable has_shared_lock new_variable
    has_exclusive_lock_exclude_self has_shared_lock_exclude_self has_exclusive_lock deref_variable
    put_site put_variable on_site on_copy site_ids range ◌+ℤ◌ deref_copy get_value is_read_available
exec_read-transactions_example =
    exec_read-transactions (pos 10003) (pos 1) (pos 2) begun (a_transaction (pos 1) (pos 10001) [])
      {tm' = after (exec_read (pos 10003) (pos 1) (pos 2) begun)} refl refl refl refl

exec_read_own_odd_example :
    exec_read (pos 10003) (pos 1) (pos 3) (state lock_3 (site_4 (some (pos 1)) []) [])
    ≡ err invalid_argument
unfolding is_odd home_site is_read_available is_write_available get_variable ℤ_discrete
exec_read_own_odd_example =
    exec_read_own_odd (pos 10003) (pos 1) (pos 3) (state lock_3 (site_4 (some (pos 1)) []) [])
      (a_transaction (pos 1) (pos 10001) record_3) _ (a_variable (pos 3) (pos 30) (some (pos 1)) [])
      refl refl refl refl refl refl refl refl refl

exec_recovery-readable_example :
    readable (pos 4) (pos 3) (after (exec_recovery (pos 4) holding)).site_manager ≡ (
      ((pos 4 ==ℤ pos 4) && lives_only_at (pos 4) (pos 3))
      || readable (pos 4) (pos 3) holding.site_manager)
unfolding exec_recovery on_site get_site put_site is_odd ◌+ℤ◌ ℤ_discrete
exec_recovery-readable_example =
    exec_recovery-readable 3 2 holding {tm' = after (exec_recovery (pos 4) holding)} (omega arith)
      (omega arith) refl (pos 4)

exec_fail-transactions_example :
    find (pos 1) (after (exec_fail (pos 4) holding)).transactions ≡ none
unfolding exec_fail Site.set_unavailable on_site get_site put_site is_odd home_site
    is_written_into_site ℤ_discrete release_locks on_copy put_variable deref_variable get_variable
    has_shared_lock has_exclusive_lock remove_exclusive_owner remove_shared_owner
exec_fail-transactions_example =
    exec_fail-transactions (pos 4) (pos 1) holding {tm' = after (exec_fail (pos 4) holding)}
      (refl, (refl, tt)) refl

abbrev committed_3 : SiteManager
committed_3 =
    (
      pos 4,
      record {
        id = pos 4;
        write_available = true;
        read_available_map = (pos 3, true) ∷ [];
        variables =
            (
              pos 3,
              record (a_variable (pos 3) (pos 30) (some (pos 1)) []) {
                value = pos 33;
                versions = (negsuc 0, pos 30) ∷ (pos 10005, pos 33) ∷ [];
              },
            )
            ∷ [];
      },
    )
    ∷ []

apply_records-installs_example :
    (copy (pos 4) (pos 3) committed_3
      ≡ install (pos 10005) (some (pos 33)) (copy (pos 4) (pos 3) (site_4 (some (pos 1)) [])))
    × (readable (pos 4) (pos 3) committed_3 ≡ true)
unfolding apply_records on_site get_site put_site assign_var deref_variable get_variable
    put_variable set_value set_version set_read_available ℤ_discrete
apply_records-installs_example =
    apply_records-installs (pos 10005) record_3 (site_4 (some (pos 1)) []) {m' = committed_3}
      (refl, tt) (λ a. ground (arith)) refl (pos 4) (pos 3)

retry_blocked_loses_example :
    (tm' : TransactionManager) × (retry_blocked retried ≡ ok (tt, tm'))
    × (tm'.blocked_transactions_queue ≡ [])
    × (is_waiting_for_lock (pos 2) tm'.lock_manager ≡ true)
    × (tm'.transactions ≡ retried.transactions)
unfolding write_request is_waiting_for_lock is_transaction_waiting_for_site is_odd home_site
    is_write_available get_variable ℤ_discrete
retry_blocked_loses_example =
    retry_blocked_loses (pos 10003) (pos 2) (pos 3) (pos 5) (pos 1) retried
      (a_site (pos 4) (a_variable (pos 3) (pos 30) (some (pos 1)) []))
      (a_variable (pos 3) (pos 30) (some (pos 1)) []) refl refl refl refl refl refl (λ e. cc) refl
      refl refl

abbrev shared_3 : TransactionManager
shared_3 = state no_locks (site_4 none (pos 1 ∷ [])) []

exec_read_second_example :
    exec_read (pos 10003) (pos 2) (pos 3) shared_3
    ≡ ok (
      tt,
      record shared_3 {
        log = (pos 10002, waiting_at (pos 2) (pos 3) (home_site (pos 3))) ∷ [];
        lock_manager = assign_wait_for_graph (pos 2) (pos 1 ∷ []) no_locks;
        blocked_transactions_queue =
            (pos 2, insert_request (read_request (pos 10003) (pos 2) (pos 3)) []) ∷ [];
      },
    )
unfolding is_odd home_site is_read_available is_write_available get_variable ℤ_discrete
exec_read_second_example =
    exec_read_second (pos 10003) (pos 2) (pos 3) (pos 1) shared_3
      (a_transaction (pos 2) (pos 10002) []) _ (a_variable (pos 3) (pos 30) none (pos 1 ∷ [])) refl
      refl refl refl refl refl refl refl refl (λ e. cc)
