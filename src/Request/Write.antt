-- ===== src/Request/Write.antt =====
-- `WriteRequest::exec`.
pub mod Repeat
pub mod New
use rep_crec.Base.{[], ◌∷◌, ℤ, minus_one, if◌then◌else◌, err, invalid_argument, Set}
use rep_crec.Global.{
  LockStatus, need_to_wait, has_write_lock, has_read_lock, available_to_assign, site_unavailable,
  is_odd, home_site,
}
use rep_crec.Transaction.{update_values}
use rep_crec.LockManager.{assign_wait_for_graph}
use rep_crec.LockManager.Acquire.{try_acquire_write_lock}
use rep_crec.LockManager.Assign.{assign_write_lock}
use rep_crec.Request.{
  write_request, updates, waiting, waiting_at, write_unavailable, already_write_lock,
  already_exclusive_lock, promotes, got_write_lock, got_write_lock_at,
}
use rep_crec.TransactionManager.{
  Action, Done, ◌>>=◌, ◌>>◌, pure, lift, asks, modify, print, on_transaction,
  add_request_to_blocked_queue,
}

-- `lock_manager->try_acquire_write_lock(tran_id, var_id)`
unfoldable pub ask_write_lock : ℤ → ℤ → Action LockStatus
unfolding try_acquire_write_lock
ask_write_lock tran_id var_id =
    asks (λ tm. try_acquire_write_lock tran_id var_id tm.lock_manager tm.site_manager)

unfoldable pub take_write_lock : ℤ → Set → ℤ → Action Done
unfolding assign_write_lock
take_write_lock tran_id site_id_set var_id =
    asks (λ tm.
      assign_write_lock tm.transactions tran_id site_id_set var_id
        (tm.lock_manager, tm.site_manager))
    >>= λ ls. modify λ tm. record tm { lock_manager = ls.0; site_manager = ls.1 }

unfoldable pub wait_for : ℤ → Set → Action Done
unfolding assign_wait_for_graph
wait_for tran_id owner_ids =
    modify
      λ tm. record tm { lock_manager = assign_wait_for_graph tran_id owner_ids tm.lock_manager }

-- `get_transaction(tran_id)->update_values(site_id, var_id, value)` for every site of the set
unfoldable pub update_all : ℤ → Set → ℤ → ℤ → Action Done
unfolding on_transaction update_values
update_all tran_id [] var_id value = pure tt
update_all tran_id (site_id ∷ site_id_set) var_id value =
    on_transaction tran_id (update_values site_id var_id value)
    >> update_all tran_id site_id_set var_id value

-- The request is put off: a fresh one with the same time.
unfoldable pub block_write : ℤ → ℤ → ℤ → ℤ → Action Done
unfolding add_request_to_blocked_queue write_request
block_write timestamp tran_id var_id value =
    add_request_to_blocked_queue (write_request timestamp tran_id minus_one var_id value)

unfoldable pub write_at_home : ℤ → ℤ → ℤ → ℤ → LockStatus → Action Done
unfolding print wait_for block_write on_transaction update_values take_write_lock
write_at_home timestamp tran_id var_id value st = elim st.status [
  | site_unavailable ↦ print (write_unavailable tran_id value (home_site var_id))
  | need_to_wait ↦ do
    print (waiting_at tran_id var_id (home_site var_id))
    wait_for tran_id st.owner_id_set
    block_write timestamp tran_id var_id value
  | has_write_lock ↦ do
    print (already_write_lock tran_id var_id)
    on_transaction tran_id (update_values (home_site var_id) var_id value)
  | has_read_lock ↦ do
    print (promotes tran_id)
    on_transaction tran_id (update_values (home_site var_id) var_id value)
    take_write_lock tran_id st.site_id_set var_id
    print (updates tran_id var_id value)
  | available_to_assign ↦ do
    print (got_write_lock_at tran_id var_id (home_site var_id))
    on_transaction tran_id (update_values (home_site var_id) var_id value)
    take_write_lock tran_id st.site_id_set var_id
    print (updates tran_id var_id value)
  | _ ↦ lift (err invalid_argument)
]

unfoldable pub write_everywhere : ℤ → ℤ → ℤ → ℤ → LockStatus → Action Done
unfolding print wait_for block_write update_all take_write_lock
write_everywhere timestamp tran_id var_id value st = elim st.status [
  | need_to_wait ↦ do
    print (waiting tran_id var_id)
    wait_for tran_id st.owner_id_set
    block_write timestamp tran_id var_id value
  | has_write_lock ↦ do
    print (already_exclusive_lock tran_id var_id)
    update_all tran_id st.site_id_set var_id value
  | has_read_lock ↦ do
    print (promotes tran_id)
    update_all tran_id st.site_id_set var_id value
    print (updates tran_id var_id value)
    take_write_lock tran_id st.site_id_set var_id
  | available_to_assign ↦ do
    print (got_write_lock tran_id var_id)
    update_all tran_id st.site_id_set var_id value
    print (updates tran_id var_id value)
    take_write_lock tran_id st.site_id_set var_id
  | _ ↦ lift (err invalid_argument)
]

unfoldable pub exec_write : ℤ → ℤ → ℤ → ℤ → Action Done
unfolding ask_write_lock write_at_home write_everywhere
exec_write timestamp tran_id var_id value = do
  st ← ask_write_lock tran_id var_id
  if is_odd var_id
      then write_at_home timestamp tran_id var_id value st
      else write_everywhere timestamp tran_id var_id value st
