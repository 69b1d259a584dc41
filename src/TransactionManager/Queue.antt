-- ===== src/TransactionManager/Queue.antt =====
-- Which requests `execute_instructions` runs, puts off and drops.
use rep_crec.LockManager.{is_waiting_for_lock}
use rep_crec.TransactionManager.{is_transaction_waiting_for_site}
use rep_crec.Base.{
  ap, ◌∙◌, add, mem-add, insert, find_or, find-insert_self, true, [], ◌∷◌, false, ◌≡◌, refl, ◌≢◌,
  none, some, List, [], ◌∷◌, ℤ, minus_one, Map, find, erase, keys, find-erase_self, find-erase_ne,
  arith, if◌then◌else◌, ok, Set, mem,
}
use rep_crec.Request.{Request, waiting_at, write_request}
use rep_crec.Request.Write.{exec_write, write_at_home, ask_write_lock, wait_for, block_write}
use rep_crec.Request.Exec.{exec}
use rep_crec.Global.{is_odd, home_site}
use rep_crec.Variable.{
  Variable, has_shared_lock, has_exclusive_lock, has_shared_lock_exclude_self,
  has_exclusive_lock_exclude_self,
}
use rep_crec.Site.{Site, is_write_available, get_variable}
use rep_crec.SiteManager.{get_site}
use rep_crec.LockManager.{assign_wait_for_graph, add_edges, insert_at, is_waiting}
use rep_crec.LockManager.Acquire.{
  add_owner, collect, collect_owners, try_acquire_write_lock, try_write_odd, write_odd,
  can_promote_odd, must_wait,
}
use rep_crec.TransactionManager.{print, insert_request, add_request_to_blocked_queue}
use rep_crec.TransactionManager.{TransactionManager}
use rep_crec.TransactionManager.Execute.{
  run_queue, is_begin, is_stale, handle, clear_request, erase_queues, retry_blocked, run_blocked,
}

-- A request of a transaction that is gone, other than one that begins a transaction, is dropped:
-- nothing else changes.
pub handle-stale :
    (r : Request) (tm : TransactionManager)
    → r.tran_id ≢ minus_one
    → find r.tran_id tm.transactions ≡ none
    → is_begin r.type ≡ false
    → handle (some r) tm ≡ ok (tt, record tm { request = none })
unfolding handle is_stale clear_request
handle-stale r tm real gone other = ground arith

find-erase_queues :
    (t : ℤ) (ts : Set) (m : Map (List Request))
    → find t (erase_queues ts m) ≡ (if mem t ts then none else find t m)
unfolding erase_queues
find-erase_queues t [] m = refl
find-erase_queues t (s ∷ ts) m =
    ground (arith, find-erase_queues t ts (erase s m), find-erase_self s m, find-erase_ne t s m)

-- When the loop over the queues ends, the queue of every transaction that had its turn is erased,
-- also if its requests were put off again in that turn; the other queues stay.
pub retry_blocked_drops :
    (tm tm' tm'' : TransactionManager) (finished : Set)
    → run_blocked (keys tm.blocked_transactions_queue) [] tm ≡ ok (finished, tm')
    → retry_blocked tm ≡ ok (tt, tm'')
    → (t : ℤ)
    → find t tm''.blocked_transactions_queue
      ≡ (if mem t finished then none else find t tm'.blocked_transactions_queue)
unfolding retry_blocked
retry_blocked_drops tm tm' tm'' finished ran e t =
    ground (arith, find-erase_queues t finished tm'.blocked_transactions_queue)

-- The only queue is run and erased.
retry_blocked_one :
    (t : ℤ) (rs : List Request) (tm tm' : TransactionManager)
    → tm.blocked_transactions_queue ≡ (t, rs) ∷ []
    → is_waiting_for_lock t tm.lock_manager ≡ false
    → is_transaction_waiting_for_site t tm ≡ false
    → run_queue t rs true tm ≡ ok (true, tm')
    → retry_blocked tm
      ≡ ok (tt, record tm' { blocked_transactions_queue = erase t tm'.blocked_transactions_queue })
unfolding retry_blocked
retry_blocked_one t rs tm tm' one free here ran = ground arith

erase-insert_only : (t : ℤ) (a b : List Request) → erase t (insert t a ((t, b) ∷ [])) ≡ []
erase-insert_only t a b = ground arith

module _ (timestamp t x value other : ℤ) (tm : TransactionManager) (s : Site) (v : Variable)
    (odd : is_odd x ≡ true) (found : find (home_site x) tm.site_manager ≡ some s)
    (up : is_write_available s ≡ true) (copy : get_variable x s ≡ some v)
    (owned : v.exclusive_lock_owner ≡ some other) (alone : v.shared_lock_owners ≡ [])
    (others : t ≢ other) where
  -- A write of an odd variable that another transaction has locked is put off.
  abbrev waiting_state : TransactionManager
  waiting_state = record tm {
    log = (tm.curr_timestamp, waiting_at t x (home_site x)) ∷ tm.log;
    lock_manager = assign_wait_for_graph t (other ∷ []) tm.lock_manager;
    blocked_transactions_queue =
        insert t
          (insert_request (write_request timestamp t minus_one x value)
            (find_or [] t tm.blocked_transactions_queue))
          tm.blocked_transactions_queue;
  }

  abbrev requeued : List Request
  requeued =
      insert_request (write_request timestamp t minus_one x value)
        (find_or [] t tm.blocked_transactions_queue)

  exec_write_waits : exec_write timestamp t x value tm ≡ ok (tt, waiting_state)
  unfolding exec_write write_at_home ask_write_lock try_acquire_write_lock try_write_odd write_odd
      can_promote_odd must_wait get_site has_shared_lock has_exclusive_lock
      has_shared_lock_exclude_self has_exclusive_lock_exclude_self collect collect_owners add_owner
      wait_for block_write print add_request_to_blocked_queue write_request
  exec_write_waits = ground arith

  run_queue_waits :
      run_queue t (write_request timestamp t minus_one x value ∷ []) true tm
      ≡ ok (true, waiting_state)
  unfolding run_queue exec write_request
  run_queue_waits =
      let e = exec_write_waits in
      let here =
        find-insert_self t
          (insert_request (write_request timestamp t minus_one x value)
            (find_or [] t tm.blocked_transactions_queue))
          tm.blocked_transactions_queue in
      ground arith

  waits_now : is_waiting_for_lock t waiting_state.lock_manager ≡ true
  unfolding is_waiting_for_lock is_waiting assign_wait_for_graph add_edges insert_at
  waits_now = ground (
    arith,
    find-insert_self t (add other (find_or [] t tm.lock_manager.wait_for_graph))
        tm.lock_manager.wait_for_graph,
    mem-add other other (find_or [] t tm.lock_manager.wait_for_graph),
  )

  -- The retry loses a write that has to wait again. Where one transaction alone has a blocked request,
  -- a write of an odd variable, and waits for nothing any more, but by now another transaction has
  -- locked the copy at the home site, which is up, exclusively: after the retry the transaction is
  -- known as before and waits for a lock, but no request is blocked any more, so the write is never
  -- run.
  pub retry_blocked_loses :
      tm.blocked_transactions_queue ≡ (t, write_request timestamp t minus_one x value ∷ []) ∷ []
      → is_waiting_for_lock t tm.lock_manager ≡ false
      → is_transaction_waiting_for_site t tm ≡ false
      → (tm' : TransactionManager) × (retry_blocked tm ≡ ok (tt, tm'))
        × (tm'.blocked_transactions_queue ≡ [])
        × (is_waiting_for_lock t tm'.lock_manager ≡ true)
        × (tm'.transactions ≡ tm.transactions)
  retry_blocked_loses one free here = (
    record waiting_state {
      blocked_transactions_queue = erase t waiting_state.blocked_transactions_queue;
    },
    retry_blocked_one t (write_request timestamp t minus_one x value ∷ []) tm waiting_state one free
        here run_queue_waits,
    ap (λ m. erase t (insert t requeued m)) one
        ∙ erase-insert_only t requeued (write_request timestamp t minus_one x value ∷ []),
    waits_now,
    refl,
  )
