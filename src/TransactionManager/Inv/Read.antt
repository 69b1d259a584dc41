-- ===== src/TransactionManager/Inv/Read.antt =====
-- A read request keeps the invariant of the locks.
use rep_crec.Base.{true, false, [], ◌∷◌, List, ℤ, minus_one, Set, invalid_argument, if◌then◌else◌}
use rep_crec.Global.{
  LockState, unknown, need_to_wait, has_write_lock, has_read_lock, has_read_write_lock,
  available_to_assign, site_unavailable, is_odd, home_site,
}
use rep_crec.Variable.{get_value}
use rep_crec.Site.{is_read_available}
use rep_crec.SiteManager.{get_site, deref_copy, site_ids}
use rep_crec.Transaction.{add_read_history, set_waiting_var_id}
use rep_crec.Request.{
  Message, read_request, waiting, waiting_at, read_unavailable, reads, reads_at, reads_only,
  reads_only_at, got_shared_lock, already_read_write_lock,
}
use rep_crec.Request.Write.{wait_for}
use rep_crec.Request.Read.{
  ask_readable, ask_value, block_read, wait_for_site, read_only_at_home, read_only_anywhere,
  handle_read_only_request, take_share_lock, read_current, read_at_home, print_first,
  read_everywhere, read_locked_at_home, handle_read_request, exec_read,
}
use rep_crec.TransactionManager.{
  TransactionManager, Action, Done, ◌>>◌, print, on_transaction, asks, gets, pure, get_transaction,
  lookup_transaction, is_transaction_waiting_for_site, add_to_site_waiting_map,
}
use rep_crec.TransactionManager.Triple.{
  Triple, Triple_bind, Triple_then, Triple_if, Triple_err, Triple_pure, Triple_asks, Triple_gets,
  Triple_lift,
}
use rep_crec.TransactionManager.Inv.{
  Inv, Guard, Guard-Inv, on_transaction-Inv, print-Inv, print-Guard, wait_for-Guard,
  add_request-Guard, add_to_site_waiting_map-Guard, on_transaction-Guard, take_share_lock-Inv,
}
use rep_crec.TransactionManager.Inv.Abort.{abort_transaction-Inv}
use rep_crec.TransactionManager.Inv.Write.{ask-Guard}

module _ {P : TransactionManager → Type 0} where
  pub ask_readable_keeps : (sid x : ℤ) → Triple P (ask_readable sid x) P
  unfolding ask_readable
  ask_readable_keeps sid x =
      Triple_bind (asks (λ tm. get_site sid tm.site_manager))
        (Triple_asks (λ tm. get_site sid tm.site_manager)) λ s. Triple_pure (is_read_available x s)

  pub ask_value_keeps : (sid x time : ℤ) → Triple P (ask_value sid x time) P
  unfolding ask_value
  ask_value_keeps sid x time =
      Triple_bind (asks (λ tm. deref_copy sid x tm.site_manager))
        (Triple_asks (λ tm. deref_copy sid x tm.site_manager)) λ v. Triple_lift (get_value time v)

  pub get_transaction_keeps : (t : ℤ) → Triple P (get_transaction t) P
  unfolding get_transaction
  get_transaction_keeps t = Triple_asks (lookup_transaction t)

module _ (t : ℤ) (sids : Set) (x : ℤ) where
  abbrev G : TransactionManager → Type 0
  G = Guard t sids x

  block_read-Guard : (timestamp : ℤ) → Triple G (block_read timestamp t x) G
  unfolding block_read
  block_read-Guard timestamp = add_request-Guard t sids x (read_request timestamp t x)

  blocks :
      (timestamp : ℤ) (owners : Set) → Triple G (wait_for t owners >> block_read timestamp t x) G
  blocks timestamp owners =
      Triple_then (wait_for t owners) (wait_for-Guard t sids x t owners)
        (block_read-Guard timestamp)

  wait_for_site-Guard : (timestamp : ℤ) → Triple G (wait_for_site timestamp t x) G
  unfolding wait_for_site
  wait_for_site-Guard timestamp =
      Triple_bind (gets (is_transaction_waiting_for_site t))
        (Triple_gets (is_transaction_waiting_for_site t))
        λ waits.
          Triple_then
            (if waits then pure tt else (do
              on_transaction t (set_waiting_var_id x)
              add_to_site_waiting_map t (home_site x)))
            (Triple_if waits (Triple_pure tt) (
              Triple_then (on_transaction t (set_waiting_var_id x))
                (on_transaction-Guard t sids x t (set_waiting_var_id x))
                (add_to_site_waiting_map-Guard t sids x t (home_site x))))
            (block_read-Guard timestamp)

  read_current-Guard : Triple G (read_current t x) G
  unfolding read_current
  read_current-Guard =
      Triple_bind (ask_value (home_site x) x minus_one) (ask_value_keeps (home_site x) x minus_one)
        λ value.
          Triple_then (on_transaction t (add_read_history (home_site x) x value))
            (on_transaction-Guard t sids x t (add_read_history (home_site x) x value))
            (print-Guard t sids x (reads_at t x value (home_site x)))

  print_first-Guard : (ks : Set) → Triple G (print_first t ks x) G
  unfolding print_first
  print_first-Guard [] = Triple_pure tt
  print_first-Guard (k ∷ ks) =
      Triple_bind (ask_value k x minus_one) (ask_value_keeps k x minus_one)
        λ value. print-Guard t sids x (reads t x value)

  says : (m : Message) {k : Action Done} → Triple G k Inv → Triple G (print m >> k) Inv
  says m h = Triple_then (print m) (print-Guard t sids x m) h

  drop : {k : Action Done} → Triple G k G → Triple G k Inv
  drop h = record { run = λ tm tm' a e p. (h.run tm tm' a e p).0 }

module _ (t x : ℤ) where
  wait_for_site-Inv : (timestamp : ℤ) → Triple Inv (wait_for_site timestamp t x) Inv
  wait_for_site-Inv timestamp = Guard-Inv t x (wait_for_site-Guard t [] x timestamp)

  read_only_at_home-Inv :
      (timestamp started : ℤ) → Triple Inv (read_only_at_home timestamp t x started) Inv
  unfolding read_only_at_home
  read_only_at_home-Inv timestamp started =
      Triple_bind (ask_readable (home_site x) x) (ask_readable_keeps (home_site x) x) λ readable.
        Triple_if readable
          (Triple_bind (ask_value (home_site x) x started) (ask_value_keeps (home_site x) x started)
            λ value.
              Triple_then (print (reads_only_at t x value (home_site x)))
                (print-Inv (reads_only_at t x value (home_site x)))
                (on_transaction-Inv t (add_read_history (home_site x) x value)))
          (wait_for_site-Inv timestamp)

  read_only_anywhere-Inv :
      (started : ℤ) (sids : List ℤ) → Triple Inv (read_only_anywhere t x started sids) Inv
  unfolding read_only_anywhere
  read_only_anywhere-Inv started [] = abort_transaction-Inv t
  read_only_anywhere-Inv started (k ∷ ks) =
      Triple_bind (ask_readable k x) (ask_readable_keeps k x) (elim [
        | true ↦ Triple_bind (ask_value k x started) (ask_value_keeps k x started) λ value.
            Triple_then (print (reads_only t x value)) (print-Inv (reads_only t x value))
              (on_transaction-Inv t (add_read_history k x value))
        | false ↦ read_only_anywhere-Inv started ks
      ])

  handle_read_only-Inv : (timestamp : ℤ) → Triple Inv (handle_read_only_request timestamp t x) Inv
  unfolding handle_read_only_request
  handle_read_only-Inv timestamp = Triple_bind (get_transaction t) (get_transaction_keeps t) λ tran.
      Triple_if (is_odd x) (read_only_at_home-Inv timestamp tran.timestamp)
        (read_only_anywhere-Inv tran.timestamp site_ids)

  module _ (timestamp : ℤ) (sids owners : Set) where
    home_Inv :
        (s : LockState)
        → Triple
            (G t sids x)
            (read_at_home timestamp t x
              (record { site_id_set = sids; status = s; owner_id_set = owners }))
            Inv
    unfolding read_at_home
    home_Inv site_unavailable =
        drop t sids x (print-Guard t sids x (read_unavailable t x (home_site x)))
    home_Inv need_to_wait =
        says t sids x (waiting_at t x (home_site x))
          (drop t sids x (blocks t sids x timestamp owners))
    home_Inv has_read_write_lock = drop t sids x (read_current-Guard t sids x)
    home_Inv available_to_assign =
        Triple_then (take_share_lock t sids x) (take_share_lock-Inv t sids x)
          (Guard-Inv t x (read_current-Guard t [] x))
    home_Inv has_read_lock = Triple_err invalid_argument
    home_Inv has_write_lock = Triple_err invalid_argument
    home_Inv unknown = Triple_err invalid_argument

    everywhere_Inv :
        (s : LockState)
        → Triple
            (G t sids x)
            (read_everywhere timestamp t x
              (record { site_id_set = sids; status = s; owner_id_set = owners }))
            Inv
    unfolding read_everywhere
    everywhere_Inv need_to_wait =
        says t sids x (waiting t x) (drop t sids x (blocks t sids x timestamp owners))
    everywhere_Inv has_read_write_lock =
        says t sids x (already_read_write_lock t x)
          (drop t sids x (print_first-Guard t sids x sids))
    everywhere_Inv available_to_assign = says t sids x (got_shared_lock t x) (
        Triple_then (print_first t sids x) (print_first-Guard t sids x sids)
          (take_share_lock-Inv t sids x))
    everywhere_Inv site_unavailable = Triple_err invalid_argument
    everywhere_Inv has_read_lock = Triple_err invalid_argument
    everywhere_Inv has_write_lock = Triple_err invalid_argument
    everywhere_Inv unknown = Triple_err invalid_argument

  read_locked_at_home-Inv : (timestamp : ℤ) → Triple Inv (read_locked_at_home timestamp t x) Inv
  unfolding read_locked_at_home
  read_locked_at_home-Inv timestamp =
      Triple_bind (ask_readable (home_site x) x) (ask_readable_keeps (home_site x) x) λ readable.
        Triple_if readable
          (ask-Guard t x λ st. home_Inv timestamp st.site_id_set st.owner_id_set st.status)
          (wait_for_site-Inv timestamp)

  handle_read-Inv : (timestamp : ℤ) → Triple Inv (handle_read_request timestamp t x) Inv
  unfolding handle_read_request
  handle_read-Inv timestamp = Triple_bind (get_transaction t) (get_transaction_keeps t) λ tran.
      Triple_if (is_odd x) (read_locked_at_home-Inv timestamp)
        (ask-Guard t x λ st. everywhere_Inv timestamp st.site_id_set st.owner_id_set st.status)

  pub exec_read-Inv : (timestamp : ℤ) → Triple Inv (exec_read timestamp t x) Inv
  unfolding exec_read
  exec_read-Inv timestamp = Triple_bind (get_transaction t) (get_transaction_keeps t) λ tran.
      Triple_if tran.is_read_only (handle_read_only-Inv timestamp) (handle_read-Inv timestamp)
