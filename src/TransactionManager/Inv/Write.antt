-- ===== src/TransactionManager/Inv/Write.antt =====
-- A write request keeps the invariant of the locks.
use rep_crec.Base.{ℤ, minus_one, Set, invalid_argument}
use rep_crec.Global.{
  LockState, LockStatus, unknown, need_to_wait, has_write_lock, has_read_lock, has_read_write_lock,
  available_to_assign, site_unavailable, is_odd, home_site,
}
use rep_crec.Transaction.{update_values}
use rep_crec.LockManager.Acquire.{try_acquire_write_lock}
use rep_crec.LockManager.Hold.Ask.{try_acquire_write_lock-Ours}
use rep_crec.Request.{
  Message, write_request, updates, waiting, waiting_at, write_unavailable, already_write_lock,
  already_exclusive_lock, promotes, got_write_lock, got_write_lock_at,
}
use rep_crec.Request.Write.{
  ask_write_lock, wait_for, update_all, take_write_lock, block_write, write_at_home,
  write_everywhere, exec_write,
}
use rep_crec.TransactionManager.{
  TransactionManager, Action, Done, ◌>>=◌, ◌>>◌, print, on_transaction,
}
use rep_crec.TransactionManager.Triple.{
  Triple, Triple_bind_asks, Triple_then, Triple_if, Triple_err, Triple_weaken,
}
use rep_crec.TransactionManager.Inv.{
  print-Inv, Inv, Guard, print-Guard, wait_for-Guard, add_request-Guard, on_transaction-Guard,
  update_all-Guard, take_write_lock-Inv,
}

pub ask-Guard :
    (t x : ℤ) {f : LockStatus → Action Done}
    → ((st : LockStatus) → Triple (Guard t st.site_id_set x) (f st) Inv)
    → Triple Inv (ask_write_lock t x >>= f) Inv
unfolding ask_write_lock
ask-Guard t x h =
    Triple_bind_asks (λ tm. try_acquire_write_lock t x tm.lock_manager tm.site_manager)
      λ st.
        Triple_weaken
          (λ tm p. (
            p.0,
            try_acquire_write_lock-Ours t x tm.lock_manager tm.site_manager
                (λ a u. p.0.sole a x t u) p.1,
          ))
          (h st)

module _ (timestamp t x value : ℤ) (sids owners : Set) where
  -- The invariant with what is known of the sites that were named.
  abbrev G : TransactionManager → Type 0
  G = Guard t sids x

  says : (m : Message) {k : Action Done} → Triple G k Inv → Triple G (print m >> k) Inv
  says m h = Triple_then (print m) (print-Guard t sids x m) h

  drop : {k : Action Done} → Triple G k G → Triple G k Inv
  drop h = record { run = λ tm tm' a e p. (h.run tm tm' a e p).0 }

  blocks : Triple G (wait_for t owners >> block_write timestamp t x value) Inv
  unfolding block_write
  blocks =
      Triple_then (wait_for t owners) (wait_for-Guard t sids x t owners)
        (drop (add_request-Guard t sids x (write_request timestamp t minus_one x value)))

  takes : (m : Message) → Triple G (take_write_lock t sids x >> print m) Inv
  takes m = Triple_then (take_write_lock t sids x) (take_write_lock-Inv t sids x) (print-Inv m)

  writes_home :
      Triple G
        (on_transaction t (update_values (home_site x) x value)
          >> (take_write_lock t sids x >> print (updates t x value)))
        Inv
  writes_home =
      Triple_then (on_transaction t (update_values (home_site x) x value))
        (on_transaction-Guard t sids x t (update_values (home_site x) x value))
        (takes (updates t x value))

  writes_all :
      Triple G
        (update_all t sids x value >> (print (updates t x value) >> take_write_lock t sids x))
        Inv
  writes_all =
      Triple_then (update_all t sids x value) (update_all-Guard t sids x t sids x value)
        (says (updates t x value) (take_write_lock-Inv t sids x))

  home_Inv :
      (s : LockState)
      → Triple G
          (write_at_home timestamp t x value
            (record { site_id_set = sids; status = s; owner_id_set = owners }))
          Inv
  unfolding write_at_home
  home_Inv site_unavailable = drop (print-Guard t sids x (write_unavailable t value (home_site x)))
  home_Inv need_to_wait = says (waiting_at t x (home_site x)) blocks
  home_Inv has_write_lock =
      says (already_write_lock t x)
        (drop (on_transaction-Guard t sids x t (update_values (home_site x) x value)))
  home_Inv has_read_lock = says (promotes t) writes_home
  home_Inv available_to_assign = says (got_write_lock_at t x (home_site x)) writes_home
  home_Inv unknown = Triple_err invalid_argument
  home_Inv has_read_write_lock = Triple_err invalid_argument

  everywhere_Inv :
      (s : LockState)
      → Triple G
          (write_everywhere timestamp t x value
            (record { site_id_set = sids; status = s; owner_id_set = owners }))
          Inv
  unfolding write_everywhere
  everywhere_Inv need_to_wait = says (waiting t x) blocks
  everywhere_Inv has_write_lock =
      says (already_exclusive_lock t x) (drop (update_all-Guard t sids x t sids x value))
  everywhere_Inv has_read_lock = says (promotes t) writes_all
  everywhere_Inv available_to_assign = says (got_write_lock t x) writes_all
  everywhere_Inv site_unavailable = Triple_err invalid_argument
  everywhere_Inv unknown = Triple_err invalid_argument
  everywhere_Inv has_read_write_lock = Triple_err invalid_argument

pub exec_write-Inv : (timestamp t x value : ℤ) → Triple Inv (exec_write timestamp t x value) Inv
unfolding exec_write
exec_write-Inv timestamp t x value = ask-Guard t x λ st.
    Triple_if (is_odd x) (home_Inv timestamp t x value st.site_id_set st.owner_id_set st.status)
      (everywhere_Inv timestamp t x value st.site_id_set st.owner_id_set st.status)
