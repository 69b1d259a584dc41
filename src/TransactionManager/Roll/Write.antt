-- ===== src/TransactionManager/Roll/Write.antt =====
-- A write request of a known transaction keeps the roll of the transactions.
use rep_crec.Base.{ℤ, minus_one, Set, invalid_argument}
use rep_crec.Global.{
  LockState, unknown, need_to_wait, has_write_lock, has_read_lock, has_read_write_lock,
  available_to_assign, site_unavailable, is_odd, home_site,
}
use rep_crec.Transaction.{update_values}
use rep_crec.LockManager.Acquire.{try_acquire_write_lock}
use rep_crec.Request.{
  Message, write_request, updates, waiting, waiting_at, write_unavailable, already_write_lock,
  already_exclusive_lock, promotes, got_write_lock, got_write_lock_at,
}
use rep_crec.Request.Write.{
  ask_write_lock, wait_for, update_all, take_write_lock, block_write, write_at_home,
  write_everywhere, exec_write,
}
use rep_crec.TransactionManager.{Action, Done, ◌>>◌, print, on_transaction}
use rep_crec.TransactionManager.Triple.{
  Triple, Triple_bind, Triple_asks, Triple_then, Triple_if, Triple_err,
}
use rep_crec.TransactionManager.Roll.Known.{
  Known, print-Known, wait_for-Known, add_request-Known, update_values-Known, update_all-Known,
  take_write_lock-Known,
}

pub ask_write_lock-Known : (t u x : ℤ) → Triple (Known t) (ask_write_lock u x) (Known t)
unfolding ask_write_lock
ask_write_lock-Known t u x =
    Triple_asks (λ tm. try_acquire_write_lock u x tm.lock_manager tm.site_manager)

module _ (timestamp t x value : ℤ) (sids owners : Set) where
  says :
      (m : Message) {k : Action Done}
      → Triple (Known t) k (Known t)
      → Triple (Known t) (print m >> k) (Known t)
  says m h = Triple_then (print m) (print-Known t m) h

  blocks : Triple (Known t) (wait_for t owners >> block_write timestamp t x value) (Known t)
  unfolding block_write
  blocks =
      Triple_then (wait_for t owners) (wait_for-Known t owners)
        (add_request-Known t (write_request timestamp t minus_one x value))

  writes_home :
      Triple
        (Known t)
        (on_transaction t (update_values (home_site x) x value)
          >> (take_write_lock t sids x >> print (updates t x value)))
        (Known t)
  writes_home =
      Triple_then (on_transaction t (update_values (home_site x) x value))
        (update_values-Known t (home_site x) x value)
        (Triple_then (take_write_lock t sids x) (take_write_lock-Known t sids x)
          (print-Known t (updates t x value)))

  writes_all :
      Triple
        (Known t)
        (update_all t sids x value >> (print (updates t x value) >> take_write_lock t sids x))
        (Known t)
  writes_all =
      Triple_then (update_all t sids x value) (update_all-Known t sids x value)
        (says (updates t x value) (take_write_lock-Known t sids x))

  home_Known :
      (s : LockState)
      → Triple
          (Known t)
          (write_at_home timestamp t x value
            (record { site_id_set = sids; status = s; owner_id_set = owners }))
          (Known t)
  unfolding write_at_home
  home_Known site_unavailable = print-Known t (write_unavailable t value (home_site x))
  home_Known need_to_wait = says (waiting_at t x (home_site x)) blocks
  home_Known has_write_lock =
      says (already_write_lock t x) (update_values-Known t (home_site x) x value)
  home_Known has_read_lock = says (promotes t) writes_home
  home_Known available_to_assign = says (got_write_lock_at t x (home_site x)) writes_home
  home_Known unknown = Triple_err invalid_argument
  home_Known has_read_write_lock = Triple_err invalid_argument

  everywhere_Known :
      (s : LockState)
      → Triple
          (Known t)
          (write_everywhere timestamp t x value
            (record { site_id_set = sids; status = s; owner_id_set = owners }))
          (Known t)
  unfolding write_everywhere
  everywhere_Known need_to_wait = says (waiting t x) blocks
  everywhere_Known has_write_lock =
      says (already_exclusive_lock t x) (update_all-Known t sids x value)
  everywhere_Known has_read_lock = says (promotes t) writes_all
  everywhere_Known available_to_assign = says (got_write_lock t x) writes_all
  everywhere_Known site_unavailable = Triple_err invalid_argument
  everywhere_Known unknown = Triple_err invalid_argument
  everywhere_Known has_read_write_lock = Triple_err invalid_argument

pub exec_write-Known :
    (timestamp t x value : ℤ) → Triple (Known t) (exec_write timestamp t x value) (Known t)
unfolding exec_write
exec_write-Known timestamp t x value =
    Triple_bind (ask_write_lock t x) (ask_write_lock-Known t t x) λ st.
      Triple_if (is_odd x) (home_Known timestamp t x value st.site_id_set st.owner_id_set st.status)
        (everywhere_Known timestamp t x value st.site_id_set st.owner_id_set st.status)
