-- ===== src/TransactionManager/Roll/Reach.antt =====
-- The states that requests in good order reach, step by step, and the deadlocks in them.
use rep_crec.Base.{
  true, false, ◌≡◌, sym, ap, ◌∙◌, subst, ◌&&◌, List, ℕ, zero, suc, ℤ, Map, Option, is_some, arith,
  ok, range, mem, length, out_of_fuel, Bool-cases, inl, inr,
}
use rep_crec.Global.{var_count}
use rep_crec.LockManager.{is_waiting, new_lock_manager}
use rep_crec.LockManager.Hold.{present}
use rep_crec.LockManager.Deadlock.Graph.{IsCyclic}
use rep_crec.SiteManager.{site_ids, new_site_manager}
use rep_crec.SiteManager.Placement.{new_site_manager-copy}
use rep_crec.Request.{Request}
use rep_crec.Request.Exec.{exec}
use rep_crec.TransactionManager.{TransactionManager, initial, asks, abort_transaction}
use rep_crec.TransactionManager.Execute.{find_deadlock, youngest, break_deadlocks}
use rep_crec.TransactionManager.Triple.{
  Triple, Triple_bind, Triple_then, Triple_pure, Triple_asks, Triple_err,
}
use rep_crec.TransactionManager.Deadlocks.Loop.{
  waiting-same, find_deadlock_total, with_graph, break_deadlocks_total,
}
use rep_crec.TransactionManager.Roll.{Roll, Roll-Breakable}
use rep_crec.TransactionManager.Roll.Abort.{abort_transaction-Roll}
use rep_crec.TransactionManager.Roll.Exec.{Orderly, exec-Roll}

-- A state is reached from the start by requests in good order, by the loop that breaks deadlocks,
-- and by changes of the clock, of the request at hand and of the queues of blocked requests.
pub data Reached : TransactionManager → Type 0 where
  start : Reached initial
  ran :
      {tm : TransactionManager} (r : Request) (tm' : TransactionManager)
      → Reached tm
      → Orderly r.kind r.timestamp r.tran_id tm
      → exec r tm ≡ ok (tt, tm')
      → Reached tm'
  broke :
      {tm tm' : TransactionManager} (fuel : ℕ)
      → Reached tm
      → break_deadlocks fuel tm ≡ ok (tt, tm')
      → Reached tm'
  turned :
      {tm : TransactionManager}
      → Reached tm
      → (time : ℤ) (r : Option Request) (queues : Map (List Request))
      → Reached
          (record tm { curr_timestamp = time; request = r; blocked_transactions_queue = queues })

initial_copies :
    (a x : ℤ) → present a x new_site_manager ≡ (mem a site_ids && mem x (range 1 var_count))
initial_copies a x =
    ap is_some (new_site_manager-copy a x)
    ∙ elim (Bool-cases (mem a site_ids && mem x (range 1 20))) [
      | inl p ↦ ground arith
      | inr p ↦ ground arith
    ]

initial-Roll : Roll initial
unfolding initial new_lock_manager is_waiting
initial-Roll = record {
  aged = tt;
  descending = tt;
  all = λ t h. absurd cc;
  tabled = λ t x h. absurd cc;
  copies = initial_copies;
  waits = λ t h. absurd cc;
}

find_deadlock-Roll : Triple Roll find_deadlock Roll
find_deadlock-Roll = record {
  run = λ tm tm' a e i.
      let (b, g, f, c, same) = find_deadlock_total tm in
      let p : with_graph g tm ≡ tm' = cc in
      subst Roll p (record {
        aged = i.aged;
        descending = i.descending;
        all = i.all;
        tabled = i.tabled;
        copies = i.copies;
        waits =
            λ t h. i.waits t (sym (waiting-same t g tm.lock_manager.wait_for_graph (same t)) ∙ h);
      });
}

break_deadlocks-Roll : (fuel : ℕ) → Triple Roll (break_deadlocks fuel) Roll
unfolding break_deadlocks
break_deadlocks-Roll zero = Triple_err out_of_fuel
break_deadlocks-Roll (suc fuel) = Triple_bind find_deadlock find_deadlock-Roll (elim [
  | false ↦ Triple_pure tt
  | true ↦
      Triple_bind (asks (λ tm. youngest tm.transactions_set))
        (Triple_asks (λ tm. youngest tm.transactions_set))
        λ t.
          Triple_then (abort_transaction t) (abort_transaction-Roll t) (break_deadlocks-Roll fuel)
])

-- In every state that requests in good order reach (a write is of a known transaction, and a
-- transaction that begins is not known yet and later than all others), the set of the transactions
-- by age holds the known transactions, with their times, from the youngest to the oldest; the lock
-- table lists only the variables that exist; each site has its copies; and only known transactions
-- wait for locks.
pub Reached-Roll : (tm : TransactionManager) → Reached tm → Roll tm
Reached-Roll tm start = initial-Roll
Reached-Roll tm (ran {tm = n} r m before orderly e) =
    (exec-Roll r).run n m tt e (Reached-Roll n before, orderly)
Reached-Roll tm (broke {tm = n} fuel before e) =
    (break_deadlocks-Roll fuel).run n tm tt e (Reached-Roll n before)
Reached-Roll tm (turned {tm = n} before time r queues) = Reached-Roll n before

-- In every state that requests in good order reach, the loop that breaks deadlocks ends within as
-- many rounds as there are transactions and one more, with no fault, in a state that is reached, too,
-- and leaves a wait-for graph without a cycle.
pub break_deadlocks-Reached :
    (tm : TransactionManager)
    → Reached tm
    → (tm' : TransactionManager) × (break_deadlocks (suc (length tm.transactions_set)) tm
        ≡ ok (tt, tm'))
      × Reached tm'
      × ¬ IsCyclic tm'.lock_manager.wait_for_graph
break_deadlocks-Reached tm before =
    let (tm', e, _, acyclic) =
      break_deadlocks_total tm (Roll-Breakable tm (Reached-Roll tm before)) in
    (tm', e, broke (suc (length tm.transactions_set)) before e, acyclic)
