-- ===== src/TransactionManager/Execute.antt =====
-- `execute_instructions`: breaks deadlocks, then runs the request at hand, or puts it off, and then
-- the requests of transactions that wait no longer.
use rep_crec.Base.{
  ℕ, zero, suc, Bool, true, false, not, ◌&&◌, ◌||◌, Option, none, some, List, [], ◌∷◌, ℤ, minus_one,
  ◌==ℤ◌, if◌then◌else◌, Result, ok, err, empty_set, invalid_iterator, out_of_fuel, Map, Set, find,
  contains, erase, keys, length,
}
use rep_crec.Instruction.{InstructType, begin, begin_ro, read, write}
use rep_crec.LockManager.{is_waiting_for_lock}
use rep_crec.LockManager.Deadlock.{detect_deadlock}
use rep_crec.Request.{Request}
use rep_crec.Request.Exec.{exec}
use rep_crec.TransactionManager.{
  TransactionManager, Action, Done, AgeSet, ◌>>=◌, ◌>>◌, pure, lift, gets, asks, modify,
  abort_transaction, add_request_to_blocked_queue, is_transaction_waiting_for_site,
}

-- `lock_manager_->detect_deadlock()`, which may leave empty sets in the graph
unfoldable pub find_deadlock : Action Bool
unfolding detect_deadlock
find_deadlock = asks (λ tm. detect_deadlock tm.lock_manager.wait_for_graph) >>= λ found.
    modify
      (λ tm. record tm { lock_manager = record (tm.lock_manager) { wait_for_graph = found.1 } })
    >> pure found.0

-- `(*transactions_set_.begin())->get_transaction_id()`
unfoldable pub youngest : AgeSet → Result ℤ
youngest [] = err empty_set
youngest ((time, id) ∷ s) = ok id

-- The `while` loop.
unfoldable pub break_deadlocks : ℕ → Action Done
unfolding find_deadlock youngest
break_deadlocks zero = lift (err out_of_fuel)
break_deadlocks (suc fuel) = find_deadlock >>= elim [
  | false ↦ pure tt
  | true ↦ do
    tran_id ← asks (λ tm. youngest tm.transactions_set)
    abort_transaction tran_id
    break_deadlocks fuel
]

unfoldable pub is_begin : InstructType → Bool
is_begin begin = true
is_begin begin_ro = true
is_begin _ = false

unfoldable pub is_read_or_write : InstructType → Bool
is_read_or_write read = true
is_read_or_write write = true
is_read_or_write _ = false

-- The transaction of the request is not there any more.
unfoldable pub is_stale : Request → TransactionManager → Bool
unfolding is_begin
is_stale r tm =
    not (r.tran_id ==ℤ minus_one)
    && (not (contains r.tran_id tm.transactions) && not (is_begin r.type))

unfoldable pub is_blocked : Request → TransactionManager → Bool
is_blocked r tm =
    is_waiting_for_lock r.tran_id tm.lock_manager
    || (contains r.tran_id tm.blocked_transactions_queue
        || is_transaction_waiting_for_site r.tran_id tm)

unfoldable pub clear_request : Action Done
clear_request = modify λ tm. record tm { request = none }

-- Whether the queue of the transaction is there, and was there all the time.
unfoldable pub run_queue : ℤ → List Request → Bool → Action Bool
unfolding exec
run_queue tran_id [] kept = pure kept
run_queue tran_id (r ∷ rs) kept = do
  exec r
  here ← gets (λ tm. contains tran_id tm.blocked_transactions_queue)
  run_queue tran_id rs (kept && here)

-- The loop over the map of the queues, by the keys at its start. A key that went away before its
-- turn is passed over; the loop cannot go on from an element that was erased in its own turn.
unfoldable pub run_blocked : List ℤ → Set → Action Set
unfolding run_queue
run_blocked [] finished tm = ok (finished, tm)
run_blocked (tran_id ∷ tran_ids) finished tm =
    let skip = run_blocked tran_ids finished in
    let go = run_blocked tran_ids (tran_id ∷ finished) in
    elim (find tran_id tm.blocked_transactions_queue) [
      | none ↦ skip tm
      | some requests ↦
          if not (is_waiting_for_lock tran_id tm.lock_manager)
            && not (is_transaction_waiting_for_site tran_id tm)
          then (run_queue tran_id requests true >>= λ kept.
                if kept then go else lift (err invalid_iterator))
              tm
          else skip tm
    ]

unfoldable pub erase_queues : Set → Map (List Request) → Map (List Request)
erase_queues [] m = m
erase_queues (tid ∷ tids) m = erase_queues tids (erase tid m)

unfoldable pub retry_blocked : Action Done
unfolding run_blocked erase_queues
retry_blocked = do
  tran_ids ← gets (λ tm. keys tm.blocked_transactions_queue)
  finished ← run_blocked tran_ids []
  modify (λ tm. record tm {
    blocked_transactions_queue = erase_queues finished tm.blocked_transactions_queue;
  })

unfoldable pub postpone : Request → Action Done
unfolding exec is_read_or_write add_request_to_blocked_queue
postpone r = if is_read_or_write r.type then exec r else add_request_to_blocked_queue r

-- What follows the deadlocks, for the request at hand.
unfoldable pub handle : Option Request → Action Done
unfolding exec is_stale is_blocked postpone retry_blocked clear_request
handle none tm = (retry_blocked >> clear_request) tm
handle (some r) tm =
    (if is_stale r tm
        then clear_request
        else if is_blocked r tm
        then postpone r >> clear_request
        else exec r >> (retry_blocked >> clear_request))
      tm

unfoldable pub execute_instructions : Action Done
unfolding break_deadlocks handle
execute_instructions = do
  fuel ← gets (λ tm. suc (length tm.transactions_set))
  break_deadlocks fuel
  r ← gets (λ tm. tm.request)
  handle r
