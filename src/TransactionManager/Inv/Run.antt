-- ===== src/TransactionManager/Inv/Run.antt =====
-- A turn of the transaction manager keeps the invariant of the locks.
use rep_crec.Base.{
  ℕ, zero, suc, Bool, true, false, not, ◌≡◌, inl, inr, Option, none, some, List, [], ◌∷◌, ℤ, Set,
  ok, err, Option-cases, Bool-cases, arith, out_of_fuel, invalid_iterator, if◌then◌else◌, ◌&&◌,
  find, keys, length, contains,
}
use rep_crec.LockManager.{is_waiting_for_lock}
use rep_crec.LockManager.Deadlock.{detect_deadlock}
use rep_crec.Request.{Request}
use rep_crec.Request.Exec.{exec}
use rep_crec.TransactionManager.{
  TransactionManager, Action, ◌>>=◌, ◌>>◌, lift, gets, asks, modify, abort_transaction,
  add_request_to_blocked_queue, is_transaction_waiting_for_site,
}
use rep_crec.TransactionManager.Execute.{
  find_deadlock, youngest, break_deadlocks, is_stale, is_blocked, is_read_or_write, clear_request,
  run_queue, run_blocked, erase_queues, retry_blocked, postpone, handle, execute_instructions,
}
use rep_crec.TransactionManager.Triple.{
  Triple, Triple_bind, Triple_then, Triple_if, Triple_pure, Triple_asks, Triple_gets, Triple_modify,
  Triple_err,
}
use rep_crec.TransactionManager.Inv.{Inv}
use rep_crec.TransactionManager.Inv.Abort.{abort_transaction-Inv}
use rep_crec.TransactionManager.Inv.Exec.{exec-Inv}

find_deadlock-Inv : Triple Inv find_deadlock Inv
unfolding find_deadlock
find_deadlock-Inv =
    Triple_bind (asks (λ tm. detect_deadlock tm.lock_manager.wait_for_graph))
      (Triple_asks (λ tm. detect_deadlock tm.lock_manager.wait_for_graph))
      λ found.
        Triple_then
          (modify (λ tm. record tm {
            lock_manager = record (tm.lock_manager) { wait_for_graph = found.1 };
          }))
          (Triple_modify (λ tm i. i)) (Triple_pure found.0)

break_deadlocks-Inv : (fuel : ℕ) → Triple Inv (break_deadlocks fuel) Inv
unfolding break_deadlocks
break_deadlocks-Inv zero = Triple_err out_of_fuel
break_deadlocks-Inv (suc fuel) = Triple_bind find_deadlock find_deadlock-Inv (elim [
  | false ↦ Triple_pure tt
  | true ↦
      Triple_bind (asks (λ tm. youngest tm.transactions_set))
        (Triple_asks (λ tm. youngest tm.transactions_set))
        λ t. Triple_then (abort_transaction t) (abort_transaction-Inv t) (break_deadlocks-Inv fuel)
])

run_queue-Inv : (t : ℤ) (rs : List Request) (kept : Bool) → Triple Inv (run_queue t rs kept) Inv
unfolding run_queue
run_queue-Inv t [] kept = Triple_pure kept
run_queue-Inv t (r ∷ rs) kept = Triple_then (exec r) (exec-Inv r) (
    Triple_bind (gets (λ tm. contains t tm.blocked_transactions_queue))
      (Triple_gets (λ tm. contains t tm.blocked_transactions_queue))
      λ here. run_queue-Inv t rs (kept && here))

runs :
    (t : ℤ) (rs : List Request) (go : Action Set)
    → Triple Inv go Inv
    → Triple Inv
        (run_queue t rs true >>= λ kept. if kept then go else lift (err invalid_iterator))
        Inv
runs t rs go h =
    Triple_bind (run_queue t rs true) (run_queue-Inv t rs true)
      λ kept. Triple_if kept h (Triple_err invalid_iterator)

run_blocked-Inv : (ts : List ℤ) (finished : Set) → Triple Inv (run_blocked ts finished) Inv
unfolding run_blocked
run_blocked-Inv [] finished = Triple_pure finished
run_blocked-Inv (t ∷ ts) finished = record {
  run = λ tm tm' a e i. elim (Option-cases (find t tm.blocked_transactions_queue)) [
    | inl n ↦ (run_blocked-Inv ts finished).run tm tm' a (ground arith) i
    | inr (rs, found) ↦
        elim (Bool-cases (
          not (is_waiting_for_lock t tm.lock_manager)
          && not (is_transaction_waiting_for_site t tm))) [
            | inr waits ↦ (run_blocked-Inv ts finished).run tm tm' a (ground arith) i
            | inl free ↦
                (runs t rs (run_blocked ts (t ∷ finished)) (run_blocked-Inv ts (t ∷ finished))).run
                  tm tm' a (ground arith) i
          ]
  ];
}

retry_blocked-Inv : Triple Inv retry_blocked Inv
unfolding retry_blocked
retry_blocked-Inv =
    Triple_bind (gets (λ tm. keys tm.blocked_transactions_queue))
      (Triple_gets (λ tm. keys tm.blocked_transactions_queue))
      λ ts. Triple_bind (run_blocked ts []) (run_blocked-Inv ts []) λ finished.
        Triple_modify
          {f = λ tm. record tm {
            blocked_transactions_queue = erase_queues finished tm.blocked_transactions_queue;
          }}
          (λ tm i. i)

clear_request-Inv : Triple Inv clear_request Inv
unfolding clear_request
clear_request-Inv = Triple_modify (λ tm i. i)

postpone-Inv : (r : Request) → Triple Inv (postpone r) Inv
unfolding postpone add_request_to_blocked_queue
postpone-Inv r = Triple_if (is_read_or_write r.type) (exec-Inv r) (Triple_modify (λ tm i. i))

retries : Triple Inv (retry_blocked >> clear_request) Inv
retries = Triple_then retry_blocked retry_blocked-Inv clear_request-Inv

handle-Inv : (r : Option Request) → Triple Inv (handle r) Inv
unfolding handle
handle-Inv none = record { run = λ tm tm' a e i. retries.run tm tm' a e i }
handle-Inv (some r) = record {
  run = λ tm tm' a e i.
      (Triple_if (is_stale r tm) clear_request-Inv (
          Triple_if (is_blocked r tm) (Triple_then (postpone r) (postpone-Inv r) clear_request-Inv)
            (Triple_then (exec r) (exec-Inv r) retries))).run
        tm tm' a e i;
}

pub execute_instructions-Inv : Triple Inv execute_instructions Inv
unfolding execute_instructions
execute_instructions-Inv =
    Triple_bind (gets (λ tm. suc (length tm.transactions_set)))
      (Triple_gets (λ tm. suc (length tm.transactions_set)))
      λ fuel.
        Triple_then (break_deadlocks fuel) (break_deadlocks-Inv fuel)
          (Triple_bind (gets (λ tm. tm.request)) (Triple_gets (λ tm. tm.request)) λ r. handle-Inv r)

-- A turn of the transaction manager that succeeds keeps the locks consistent: still no copy is locked
-- by two transactions, each lock is in the lock table, an odd variable is locked at its home site
-- only, and the lock table lists known transactions only.
pub execute_instructions_keeps :
    (tm : TransactionManager) {tm' : TransactionManager}
    → Inv tm
    → execute_instructions tm ≡ ok (tt, tm')
    → Inv tm'
execute_instructions_keeps tm {tm'} i e = execute_instructions-Inv.run tm tm' tt e i
