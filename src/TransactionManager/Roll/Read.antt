-- ===== src/TransactionManager/Roll/Read.antt =====
-- A read request keeps the roll of the transactions.
use rep_crec.Base.{
  true, false, refl, [], ◌∷◌, List, ℤ, minus_one, Set, invalid_argument, if◌then◌else◌,
}
use rep_crec.Global.{
  LockState, unknown, need_to_wait, has_write_lock, has_read_lock, has_read_write_lock,
  available_to_assign, site_unavailable, is_odd, home_site,
}
use rep_crec.SiteManager.{site_ids}
use rep_crec.Transaction.{add_read_history, set_waiting_var_id}
use rep_crec.Request.{
  Message, read_request, waiting, waiting_at, read_unavailable, reads, reads_at, reads_only,
  reads_only_at, got_shared_lock, already_read_write_lock,
}
use rep_crec.Request.Write.{wait_for, ask_write_lock}
use rep_crec.Request.Read.{
  ask_readable, ask_value, block_read, wait_for_site, read_only_at_home, read_only_anywhere,
  handle_read_only_request, take_share_lock, read_current, read_at_home, print_first,
  read_everywhere, read_locked_at_home, handle_read_request, exec_read,
}
use rep_crec.TransactionManager.{
  TransactionManager, Action, Done, ◌>>◌, print, on_transaction, gets, pure, get_transaction,
  lookup_transaction, is_transaction_waiting_for_site, add_to_site_waiting_map,
}
use rep_crec.TransactionManager.Triple.{
  Triple, Triple_bind, Triple_bind_asks, Triple_weaken, Triple_then, Triple_if, Triple_err,
  Triple_pure, Triple_gets,
}
use rep_crec.TransactionManager.Inv.Read.{
  ask_readable_keeps, ask_value_keeps, get_transaction_keeps,
}
use rep_crec.TransactionManager.Roll.{Roll}
use rep_crec.TransactionManager.Roll.Known.{
  Known, lookup_transaction-contains, print-Known, add_request-Known, add_to_site_waiting_map-Known,
  wait_for-Known, on_transaction-Known, take_share_lock-Known,
}
use rep_crec.TransactionManager.Roll.Abort.{abort_transaction-Roll}
use rep_crec.TransactionManager.Roll.Write.{ask_write_lock-Known}

module _ (t x : ℤ) where
  abbrev K : TransactionManager → Type 0
  K = Known t

  says : (m : Message) {k : Action Done} → Triple K k K → Triple K (print m >> k) K
  says m h = Triple_then (print m) (print-Known t m) h

  history : (k value : ℤ) → Triple K (on_transaction t (add_read_history k x value)) K
  unfolding add_read_history
  history k value = on_transaction-Known t t (add_read_history k x value) (λ tran. refl)

  block_read-Known : (timestamp : ℤ) → Triple K (block_read timestamp t x) K
  unfolding block_read
  block_read-Known timestamp = add_request-Known t (read_request timestamp t x)

  blocks :
      (timestamp : ℤ) (owners : Set) → Triple K (wait_for t owners >> block_read timestamp t x) K
  blocks timestamp owners =
      Triple_then (wait_for t owners) (wait_for-Known t owners) (block_read-Known timestamp)

  wait_for_site-Known : (timestamp : ℤ) → Triple K (wait_for_site timestamp t x) K
  unfolding wait_for_site set_waiting_var_id
  wait_for_site-Known timestamp =
      Triple_bind (gets (is_transaction_waiting_for_site t))
        (Triple_gets (is_transaction_waiting_for_site t))
        λ waits.
          Triple_then
            (if waits then pure tt else (do
              on_transaction t (set_waiting_var_id x)
              add_to_site_waiting_map t (home_site x)))
            (Triple_if waits (Triple_pure tt) (
              Triple_then (on_transaction t (set_waiting_var_id x))
                (on_transaction-Known t t (set_waiting_var_id x) (λ tran. refl))
                (add_to_site_waiting_map-Known t t (home_site x))))
            (block_read-Known timestamp)

  read_current-Known : Triple K (read_current t x) K
  unfolding read_current
  read_current-Known =
      Triple_bind (ask_value (home_site x) x minus_one) (ask_value_keeps (home_site x) x minus_one)
        λ value.
          Triple_then (on_transaction t (add_read_history (home_site x) x value))
            (history (home_site x) value) (print-Known t (reads_at t x value (home_site x)))

  print_first-Known : (ks : Set) → Triple K (print_first t ks x) K
  unfolding print_first
  print_first-Known [] = Triple_pure tt
  print_first-Known (k ∷ ks) =
      Triple_bind (ask_value k x minus_one) (ask_value_keeps k x minus_one)
        λ value. print-Known t (reads t x value)

  drop : {k : Action Done} → Triple K k K → Triple K k Roll
  drop h = record { run = λ tm tm' a e p. (h.run tm tm' a e p).0 }

  read_only_at_home-Known :
      (timestamp started : ℤ) → Triple K (read_only_at_home timestamp t x started) K
  unfolding read_only_at_home
  read_only_at_home-Known timestamp started =
      Triple_bind (ask_readable (home_site x) x) (ask_readable_keeps (home_site x) x) λ readable.
        Triple_if readable
          (Triple_bind (ask_value (home_site x) x started) (ask_value_keeps (home_site x) x started)
            λ value. says (reads_only_at t x value (home_site x)) (history (home_site x) value))
          (wait_for_site-Known timestamp)

  read_only_anywhere-Roll :
      (started : ℤ) (sids : List ℤ) → Triple K (read_only_anywhere t x started sids) Roll
  unfolding read_only_anywhere
  read_only_anywhere-Roll started [] = Triple_weaken (λ tm p. p.0) (abort_transaction-Roll t)
  read_only_anywhere-Roll started (k ∷ ks) =
      Triple_bind (ask_readable k x) (ask_readable_keeps k x) (elim [
        | true ↦
            Triple_bind (ask_value k x started) (ask_value_keeps k x started)
              λ value. drop (says (reads_only t x value) (history k value))
        | false ↦ read_only_anywhere-Roll started ks
      ])

  handle_read_only-Roll : (timestamp : ℤ) → Triple K (handle_read_only_request timestamp t x) Roll
  unfolding handle_read_only_request
  handle_read_only-Roll timestamp =
      Triple_bind (get_transaction t) (get_transaction_keeps t) λ tran.
        Triple_if (is_odd x) (drop (read_only_at_home-Known timestamp tran.timestamp))
          (read_only_anywhere-Roll tran.timestamp site_ids)

  module _ (timestamp : ℤ) (sids owners : Set) where
    home_Known :
        (s : LockState)
        → Triple K
            (read_at_home timestamp t x
              (record { site_id_set = sids; status = s; owner_id_set = owners }))
            K
    unfolding read_at_home
    home_Known site_unavailable = print-Known t (read_unavailable t x (home_site x))
    home_Known need_to_wait = says (waiting_at t x (home_site x)) (blocks timestamp owners)
    home_Known has_read_write_lock = read_current-Known
    home_Known available_to_assign =
        Triple_then (take_share_lock t sids x) (take_share_lock-Known t sids x) read_current-Known
    home_Known has_read_lock = Triple_err invalid_argument
    home_Known has_write_lock = Triple_err invalid_argument
    home_Known unknown = Triple_err invalid_argument

    everywhere_Known :
        (s : LockState)
        → Triple K
            (read_everywhere timestamp t x
              (record { site_id_set = sids; status = s; owner_id_set = owners }))
            K
    unfolding read_everywhere
    everywhere_Known need_to_wait = says (waiting t x) (blocks timestamp owners)
    everywhere_Known has_read_write_lock =
        says (already_read_write_lock t x) (print_first-Known sids)
    everywhere_Known available_to_assign = says (got_shared_lock t x) (
        Triple_then (print_first t sids x) (print_first-Known sids)
          (take_share_lock-Known t sids x))
    everywhere_Known site_unavailable = Triple_err invalid_argument
    everywhere_Known has_read_lock = Triple_err invalid_argument
    everywhere_Known has_write_lock = Triple_err invalid_argument
    everywhere_Known unknown = Triple_err invalid_argument

  read_locked_at_home-Known : (timestamp : ℤ) → Triple K (read_locked_at_home timestamp t x) K
  unfolding read_locked_at_home
  read_locked_at_home-Known timestamp =
      Triple_bind (ask_readable (home_site x) x) (ask_readable_keeps (home_site x) x) λ readable.
        Triple_if readable
          (Triple_bind (ask_write_lock t x) (ask_write_lock-Known t t x)
            λ st. home_Known timestamp st.site_id_set st.owner_id_set st.status)
          (wait_for_site-Known timestamp)

  handle_read-Known : (timestamp : ℤ) → Triple K (handle_read_request timestamp t x) K
  unfolding handle_read_request
  handle_read-Known timestamp = Triple_bind (get_transaction t) (get_transaction_keeps t) λ tran.
      Triple_if (is_odd x) (read_locked_at_home-Known timestamp) (
        Triple_bind (ask_write_lock t x) (ask_write_lock-Known t t x)
          λ st. everywhere_Known timestamp st.site_id_set st.owner_id_set st.status)

  -- The transaction is looked up first, so it is known.
  pub exec_read-Roll : (timestamp : ℤ) → Triple Roll (exec_read timestamp t x) Roll
  unfolding exec_read get_transaction
  exec_read-Roll timestamp = Triple_bind_asks (lookup_transaction t) λ tran.
      Triple_weaken (λ tm p. (p.0, lookup_transaction-contains t tm p.1))
        (Triple_if tran.is_read_only (handle_read_only-Roll timestamp)
          (drop (handle_read-Known timestamp)))
