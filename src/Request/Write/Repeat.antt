-- ===== src/Request/Write/Repeat.antt =====
-- A write by a transaction that holds the write lock already.
use rep_crec.Base.{◌≡◌, false, true, [], ◌∷◌, ℤ, ok, arith, some, find, insert}
use rep_crec.Global.{LockStatus, has_write_lock, is_odd, home_site}
use rep_crec.LockManager.Acquire.{try_acquire_write_lock}
use rep_crec.LockManager.Acquire.Outcome.{Settled, try_acquire_write_lock-Settled}
use rep_crec.Request.{already_exclusive_lock, already_write_lock}
use rep_crec.Request.Write.{exec_write, write_everywhere, write_at_home, ask_write_lock, update_all}
use rep_crec.Transaction.{Transaction, update_values}
use rep_crec.TransactionManager.{
  TransactionManager, print, on_transaction, get_transaction, lookup_transaction,
}

no_sites : (st : LockStatus) → Settled st → st.status ≡ has_write_lock → st.site_id_set ≡ []
no_sites st s h = ground arith

-- A write of an even variable by a transaction that is told that it holds the write lock already is
-- lost: nothing changes but for the line that is printed.
pub exec_write_again :
    (timestamp tran_id var_id value : ℤ) (tm : TransactionManager) {st : LockStatus}
    → is_odd var_id ≡ false
    → try_acquire_write_lock tran_id var_id tm.lock_manager tm.site_manager ≡ ok st
    → st.status ≡ has_write_lock
    → exec_write timestamp tran_id var_id value tm
      ≡ ok (
        tt,
        record tm { log = (tm.curr_timestamp, already_exclusive_lock tran_id var_id) ∷ tm.log },
      )
unfolding exec_write ask_write_lock write_everywhere update_all print
exec_write_again timestamp tran_id var_id value tm {st} even e h =
    let empty : st.site_id_set ≡ [] =
      no_sites st
        (try_acquire_write_lock-Settled tran_id var_id tm.lock_manager tm.site_manager even e) h in
    ground arith

-- Of an odd variable it is recorded at the home site.
pub exec_write_again_home :
    (timestamp tran_id var_id value : ℤ) (tm : TransactionManager) (t : Transaction)
    {st : LockStatus}
    → is_odd var_id ≡ true
    → find tran_id tm.transactions ≡ some t
    → try_acquire_write_lock tran_id var_id tm.lock_manager tm.site_manager ≡ ok st
    → st.status ≡ has_write_lock
    → exec_write timestamp tran_id var_id value tm
      ≡ ok (
        tt,
        record tm {
          log = (tm.curr_timestamp, already_write_lock tran_id var_id) ∷ tm.log;
          transactions =
              insert tran_id (update_values (home_site var_id) var_id value t) tm.transactions;
        },
      )
unfolding exec_write ask_write_lock write_at_home print on_transaction get_transaction
    lookup_transaction
exec_write_again_home timestamp tran_id var_id value tm t odd known e h = ground arith
