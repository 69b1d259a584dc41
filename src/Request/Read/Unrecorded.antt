-- ===== src/Request/Read/Unrecorded.antt =====
-- Reads under locks that the transaction does not record.
use rep_crec.Base.{
  false, ◌≡◌, refl, sym, ◌∙◌, some, [], ◌∷◌, ℤ, minus_one, Map, Set, find, ok, arith,
  invalid_argument,
}
use rep_crec.Global.{
  LockState, unknown, need_to_wait, has_write_lock, has_read_lock, has_read_write_lock,
  available_to_assign, site_unavailable, is_odd,
}
use rep_crec.Transaction.{Transaction}
use rep_crec.LockManager.Acquire.{try_acquire_write_lock}
use rep_crec.LockManager.Assign.{assign_share_lock}
use rep_crec.Request.{Message, waiting, reads, got_shared_lock, already_read_write_lock}
use rep_crec.Request.Write.{wait_for, ask_write_lock}
use rep_crec.Request.Read.{
  ask_value, block_read, take_share_lock, print_first, read_everywhere, handle_read_request,
  exec_read,
}
use rep_crec.TransactionManager.{
  TransactionManager, Done, Action, ◌>>=◌, ◌>>◌, print, asks, get_transaction, lookup_transaction,
  add_request_to_blocked_queue,
}
use rep_crec.TransactionManager.Triple.{
  Triple, Triple_bind, Triple_then, Triple_err, Triple_pure, Triple_asks, Triple_modify,
}
use rep_crec.TransactionManager.Inv.Read.{ask_value_keeps}

module _ (ts : Map Transaction) where
  -- The transactions are these.
  abbrev Same : TransactionManager → Type 0
  Same tm = tm.transactions ≡ ts

  print-Same : (m : Message) → Triple Same (print m) Same
  unfolding print
  print-Same m = Triple_modify (λ tm p. p)

  says : (m : Message) {k : Action Done} → Triple Same k Same → Triple Same (print m >> k) Same
  says m h = Triple_then (print m) (print-Same m) h

  print_first-Same : (t : ℤ) (ks : Set) (x : ℤ) → Triple Same (print_first t ks x) Same
  unfolding print_first
  print_first-Same t [] x = Triple_pure tt
  print_first-Same t (k ∷ ks) x =
      Triple_bind (ask_value k x minus_one) (ask_value_keeps k x minus_one)
        λ value. print-Same (reads t x value)

  wait_for-Same : (t : ℤ) (owners : Set) → Triple Same (wait_for t owners) Same
  unfolding wait_for
  wait_for-Same t owners = Triple_modify (λ tm p. p)

  block_read-Same : (timestamp t x : ℤ) → Triple Same (block_read timestamp t x) Same
  unfolding block_read add_request_to_blocked_queue
  block_read-Same timestamp t x = Triple_modify (λ tm p. p)

  blocks :
      (timestamp t x : ℤ) (owners : Set)
      → Triple Same (wait_for t owners >> block_read timestamp t x) Same
  blocks timestamp t x owners =
      Triple_then (wait_for t owners) (wait_for-Same t owners) (block_read-Same timestamp t x)

  take_share_lock-Same : (t : ℤ) (sids : Set) (x : ℤ) → Triple Same (take_share_lock t sids x) Same
  unfolding take_share_lock
  take_share_lock-Same t sids x =
      Triple_bind
        (asks (λ tm. assign_share_lock tm.transactions t sids x (tm.lock_manager, tm.site_manager)))
        (Triple_asks
          (λ tm. assign_share_lock tm.transactions t sids x (tm.lock_manager, tm.site_manager)))
        λ ls. Triple_modify (λ tm p. p)

  everywhere_Same :
      (timestamp t x : ℤ) (sids owners : Set) (s : LockState)
      → Triple Same
          (read_everywhere timestamp t x
            (record { site_id_set = sids; status = s; owner_id_set = owners }))
          Same
  unfolding read_everywhere
  everywhere_Same timestamp t x sids owners need_to_wait =
      says (waiting t x) (blocks timestamp t x owners)
  everywhere_Same timestamp t x sids owners has_read_write_lock =
      says (already_read_write_lock t x) (print_first-Same t sids x)
  everywhere_Same timestamp t x sids owners available_to_assign = says (got_shared_lock t x) (
      Triple_then (print_first t sids x) (print_first-Same t sids x)
        (take_share_lock-Same t sids x))
  everywhere_Same timestamp t x sids owners site_unavailable = Triple_err invalid_argument
  everywhere_Same timestamp t x sids owners has_read_lock = Triple_err invalid_argument
  everywhere_Same timestamp t x sids owners has_write_lock = Triple_err invalid_argument
  everywhere_Same timestamp t x sids owners unknown = Triple_err invalid_argument

  asks_Same :
      (timestamp t x : ℤ)
      → Triple Same (ask_write_lock t x >>= λ st. read_everywhere timestamp t x st) Same
  unfolding ask_write_lock
  asks_Same timestamp t x =
      Triple_bind (asks (λ tm. try_acquire_write_lock t x tm.lock_manager tm.site_manager))
        (Triple_asks (λ tm. try_acquire_write_lock t x tm.lock_manager tm.site_manager))
        λ st. everywhere_Same timestamp t x st.site_id_set st.owner_id_set st.status

even_read :
    (timestamp tran_id var_id : ℤ) (tm : TransactionManager) (t : Transaction)
    → find tran_id tm.transactions ≡ some t
    → t.is_read_only ≡ false
    → is_odd var_id ≡ false
    → exec_read timestamp tran_id var_id tm
      ≡ (ask_write_lock tran_id var_id >>= λ st. read_everywhere timestamp tran_id var_id st) tm
unfolding exec_read handle_read_request get_transaction lookup_transaction
even_read timestamp tran_id var_id tm t known rw_tran even = ground arith

-- A read of an even variable by a transaction that is not read-only, where it succeeds, leaves all
-- transactions as they are: also where it gets the lock and reads a value, the transaction does not
-- record that it read there, and its commit does not look whether the copy can be read still.
pub exec_read-transactions :
    (timestamp tran_id var_id : ℤ) (tm : TransactionManager) (t : Transaction)
    {tm' : TransactionManager}
    → find tran_id tm.transactions ≡ some t
    → t.is_read_only ≡ false
    → is_odd var_id ≡ false
    → exec_read timestamp tran_id var_id tm ≡ ok (tt, tm')
    → tm'.transactions ≡ tm.transactions
exec_read-transactions timestamp tran_id var_id tm t {tm'} known rw_tran even e =
    (asks_Same tm.transactions timestamp tran_id var_id).run tm tm' tt
      (sym (even_read timestamp tran_id var_id tm t known rw_tran even) ∙ e) refl
