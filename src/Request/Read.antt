-- ===== src/Request/Read.antt =====
-- `ReadRequest::exec` and its two handlers.
pub mod Locked
pub mod Unrecorded
pub mod Only
use rep_crec.Base.{
  Bool, true, false, List, [], ◌∷◌, ℤ, minus_one, if◌then◌else◌, err, invalid_argument, Set,
}
use rep_crec.Global.{
  LockStatus, need_to_wait, has_read_write_lock, available_to_assign, site_unavailable, is_odd,
  home_site,
}
use rep_crec.Variable.{get_value}
use rep_crec.Site.{is_read_available}
use rep_crec.SiteManager.{get_site, deref_copy, site_ids}
use rep_crec.Transaction.{add_read_history, set_waiting_var_id}
use rep_crec.LockManager.Assign.{assign_share_lock}
use rep_crec.Request.{
  read_request, waiting, waiting_at, read_unavailable, reads, reads_at, reads_only, reads_only_at,
  got_shared_lock, already_read_write_lock,
}
use rep_crec.Request.Write.{ask_write_lock, wait_for}
use rep_crec.TransactionManager.{
  Action, Done, ◌>>=◌, ◌>>◌, pure, lift, gets, asks, modify, print, get_transaction, on_transaction,
  add_request_to_blocked_queue, is_transaction_waiting_for_site, add_to_site_waiting_map,
  abort_transaction,
}

-- `get_site(site_id)->is_read_available(var_id)`
unfoldable pub ask_readable : ℤ → ℤ → Action Bool
ask_readable site_id var_id = do
  s ← asks (λ tm. get_site site_id tm.site_manager)
  pure (is_read_available var_id s)

-- `get_site(site_id)->get_variable(var_id)->get_value(timestamp)`
unfoldable pub ask_value : ℤ → ℤ → ℤ → Action ℤ
ask_value site_id var_id timestamp = do
  v ← asks (λ tm. deref_copy site_id var_id tm.site_manager)
  lift (get_value timestamp v)

unfoldable pub block_read : ℤ → ℤ → ℤ → Action Done
unfolding add_request_to_blocked_queue read_request
block_read timestamp tran_id var_id =
    add_request_to_blocked_queue (read_request timestamp tran_id var_id)

-- A transaction that reads at a site which is down waits for the site.
unfoldable pub wait_for_site : ℤ → ℤ → ℤ → Action Done
unfolding block_read on_transaction set_waiting_var_id add_to_site_waiting_map
wait_for_site timestamp tran_id var_id = do
  waits ← gets (is_transaction_waiting_for_site tran_id)
  if waits then pure tt else (do
    on_transaction tran_id (set_waiting_var_id var_id)
    add_to_site_waiting_map tran_id (home_site var_id))
  block_read timestamp tran_id var_id

unfoldable pub read_only_at_home : ℤ → ℤ → ℤ → ℤ → Action Done
unfolding ask_readable ask_value wait_for_site on_transaction add_read_history print
read_only_at_home timestamp tran_id var_id started = do
  readable ← ask_readable (home_site var_id) var_id
  if readable
      then (do
        value ← ask_value (home_site var_id) var_id started
        print (reads_only_at tran_id var_id value (home_site var_id))
        on_transaction tran_id (add_read_history (home_site var_id) var_id value))
      else wait_for_site timestamp tran_id var_id

-- The first site where the variable can be read serves; with none the transaction is aborted.
unfoldable pub read_only_anywhere : ℤ → ℤ → ℤ → List ℤ → Action Done
unfolding ask_readable ask_value on_transaction add_read_history print abort_transaction
read_only_anywhere tran_id var_id started [] = abort_transaction tran_id
read_only_anywhere tran_id var_id started (site_id ∷ sids) = ask_readable site_id var_id >>= elim [
  | true ↦ do
    value ← ask_value site_id var_id started
    print (reads_only tran_id var_id value)
    on_transaction tran_id (add_read_history site_id var_id value)
  | false ↦ read_only_anywhere tran_id var_id started sids
]

unfoldable pub handle_read_only_request : ℤ → ℤ → ℤ → Action Done
unfolding get_transaction read_only_at_home read_only_anywhere
handle_read_only_request timestamp tran_id var_id = do
  t ← get_transaction tran_id
  if is_odd var_id
      then read_only_at_home timestamp tran_id var_id t.timestamp
      else read_only_anywhere tran_id var_id t.timestamp site_ids

unfoldable pub take_share_lock : ℤ → Set → ℤ → Action Done
unfolding assign_share_lock
take_share_lock tran_id site_id_set var_id =
    asks (λ tm.
      assign_share_lock tm.transactions tran_id site_id_set var_id
        (tm.lock_manager, tm.site_manager))
    >>= λ ls. modify λ tm. record tm { lock_manager = ls.0; site_manager = ls.1 }

-- The current value at the home site, noted and printed.
unfoldable pub read_current : ℤ → ℤ → Action Done
unfolding ask_value on_transaction add_read_history print
read_current tran_id var_id = do
  value ← ask_value (home_site var_id) var_id minus_one
  on_transaction tran_id (add_read_history (home_site var_id) var_id value)
  print (reads_at tran_id var_id value (home_site var_id))

unfoldable pub read_at_home : ℤ → ℤ → ℤ → LockStatus → Action Done
unfolding print wait_for block_read read_current take_share_lock
read_at_home timestamp tran_id var_id st = elim st.status [
  | site_unavailable ↦ print (read_unavailable tran_id var_id (home_site var_id))
  | need_to_wait ↦ do
    print (waiting_at tran_id var_id (home_site var_id))
    wait_for tran_id st.owner_id_set
    block_read timestamp tran_id var_id
  | has_read_write_lock ↦ read_current tran_id var_id
  | available_to_assign ↦
      take_share_lock tran_id st.site_id_set var_id >> read_current tran_id var_id
  | _ ↦ lift (err invalid_argument)
]

-- The loop that prints the value at the first site of the set, and breaks.
unfoldable pub print_first : ℤ → Set → ℤ → Action Done
unfolding ask_value print
print_first tran_id [] var_id = pure tt
print_first tran_id (site_id ∷ sids) var_id = do
  value ← ask_value site_id var_id minus_one
  print (reads tran_id var_id value)

unfoldable pub read_everywhere : ℤ → ℤ → ℤ → LockStatus → Action Done
unfolding print wait_for block_read print_first take_share_lock
read_everywhere timestamp tran_id var_id st = elim st.status [
  | need_to_wait ↦ do
    print (waiting tran_id var_id)
    wait_for tran_id st.owner_id_set
    block_read timestamp tran_id var_id
  | has_read_write_lock ↦ do
    print (already_read_write_lock tran_id var_id)
    print_first tran_id st.site_id_set var_id
  | available_to_assign ↦ do
    print (got_shared_lock tran_id var_id)
    print_first tran_id st.site_id_set var_id
    take_share_lock tran_id st.site_id_set var_id
  | _ ↦ lift (err invalid_argument)
]

unfoldable pub read_locked_at_home : ℤ → ℤ → ℤ → Action Done
unfolding ask_readable ask_write_lock read_at_home wait_for_site
read_locked_at_home timestamp tran_id var_id = do
  readable ← ask_readable (home_site var_id) var_id
  if readable
      then (ask_write_lock tran_id var_id >>= λ st. read_at_home timestamp tran_id var_id st)
      else wait_for_site timestamp tran_id var_id

-- The source asks for the write lock here, too.
unfoldable pub handle_read_request : ℤ → ℤ → ℤ → Action Done
unfolding get_transaction read_locked_at_home ask_write_lock read_everywhere
handle_read_request timestamp tran_id var_id = do
  t ← get_transaction tran_id
  if is_odd var_id
      then read_locked_at_home timestamp tran_id var_id
      else (ask_write_lock tran_id var_id >>= λ st. read_everywhere timestamp tran_id var_id st)

unfoldable pub exec_read : ℤ → ℤ → ℤ → Action Done
unfolding get_transaction handle_read_only_request handle_read_request
exec_read timestamp tran_id var_id = do
  t ← get_transaction tran_id
  if t.is_read_only
      then handle_read_only_request timestamp tran_id var_id
      else handle_read_request timestamp tran_id var_id
