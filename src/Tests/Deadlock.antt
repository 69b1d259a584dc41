-- ===== src/Tests/Deadlock.antt =====
-- Two transactions that wait for each other, reached from the start request by request.
use rep_crec.Base.{
  ℤ_discrete, ◌+ℤ◌, ok, ◌≡◌, refl, false, [], ◌∷◌, ℤ, pos, minus_one, length, suc, arith,
}
use rep_crec.LockManager.Deadlock.Graph.{IsCyclic}
use rep_crec.Global.{is_odd, home_site}
use rep_crec.Variable.{
  set_exclusive_transaction, has_exclusive_lock, has_shared_lock_exclude_self,
  has_exclusive_lock_exclude_self, new_variable, has_shared_lock,
}
use rep_crec.Site.{put_variable, deref_variable, get_variable, new_site, is_write_available}
use rep_crec.SiteManager.{on_copy, on_site, put_site, get_site}
use rep_crec.Transaction.{new_transaction}
use rep_crec.Request.{Request, create_request, write_request}
use rep_crec.Request.Exec.{exec}
use rep_crec.TransactionManager.{TransactionManager, initial}
use rep_crec.TransactionManager.Execute.{break_deadlocks}
use rep_crec.TransactionManager.Roll.{Roll}
use rep_crec.TransactionManager.Roll.Reach.{
  Reached, start, ran, Reached-Roll, break_deadlocks-Reached,
}
use rep_crec.Tests.States.{after}

abbrev begins_1 : Request
unfolding create_request
begins_1 = create_request (pos 10001) (pos 1) false

abbrev begins_2 : Request
unfolding create_request
begins_2 = create_request (pos 10002) (pos 2) false

-- The transaction writes the variable.
abbrev writes : ℤ → ℤ → ℤ → Request
unfolding write_request
writes time t x = write_request time t minus_one x (pos 7)

abbrev begun : TransactionManager
unfolding initial exec
begun = after (exec begins_2 (after (exec begins_1 initial)))

-- Each has locked a variable.
abbrev locked_one : TransactionManager
unfolding exec begun
locked_one = after (exec (writes (pos 10003) (pos 1) (pos 1)) begun)

abbrev locked_both : TransactionManager
unfolding exec locked_one
locked_both = after (exec (writes (pos 10004) (pos 2) (pos 3)) locked_one)

-- Each waits for the other one.
abbrev one_waits : TransactionManager
unfolding exec locked_both
one_waits = after (exec (writes (pos 10005) (pos 1) (pos 3)) locked_both)

abbrev both_wait : TransactionManager
unfolding exec one_waits
both_wait = after (exec (writes (pos 10006) (pos 2) (pos 1)) one_waits)

begun-Reached : Reached begun
unfolding initial exec begins_1 begins_2 writes begun locked_one locked_both one_waits both_wait
    ℤ_discrete is_odd home_site get_site is_write_available new_site get_variable has_shared_lock
    new_variable has_exclusive_lock_exclude_self has_shared_lock_exclude_self has_exclusive_lock
    deref_variable put_site put_variable on_site on_copy ◌+ℤ◌ new_transaction
    set_exclusive_transaction
begun-Reached =
    ran begins_2 begun (ran begins_1 (after (exec begins_1 initial)) start (refl, tt) refl)
      (refl, (omega arith, tt)) refl

locked_one-Reached : Reached locked_one
unfolding initial exec begins_1 begins_2 writes begun locked_one locked_both one_waits both_wait
    ℤ_discrete is_odd home_site get_site is_write_available new_site get_variable has_shared_lock
    new_variable has_exclusive_lock_exclude_self has_shared_lock_exclude_self has_exclusive_lock
    deref_variable put_site put_variable on_site on_copy ◌+ℤ◌ new_transaction
    set_exclusive_transaction
locked_one-Reached = ran (writes (pos 10003) (pos 1) (pos 1)) locked_one begun-Reached refl refl

locked_both-Reached : Reached locked_both
unfolding initial exec begins_1 begins_2 writes begun locked_one locked_both one_waits both_wait
    ℤ_discrete is_odd home_site get_site is_write_available new_site get_variable has_shared_lock
    new_variable has_exclusive_lock_exclude_self has_shared_lock_exclude_self has_exclusive_lock
    deref_variable put_site put_variable on_site on_copy ◌+ℤ◌ new_transaction
    set_exclusive_transaction
locked_both-Reached =
    ran (writes (pos 10004) (pos 2) (pos 3)) locked_both locked_one-Reached refl refl

one_waits-Reached : Reached one_waits
unfolding initial exec begins_1 begins_2 writes begun locked_one locked_both one_waits both_wait
    ℤ_discrete is_odd home_site get_site is_write_available new_site get_variable has_shared_lock
    new_variable has_exclusive_lock_exclude_self has_shared_lock_exclude_self has_exclusive_lock
    deref_variable put_site put_variable on_site on_copy ◌+ℤ◌ new_transaction
    set_exclusive_transaction
one_waits-Reached = ran (writes (pos 10005) (pos 1) (pos 3)) one_waits locked_both-Reached refl refl

both_wait-Reached : Reached both_wait
unfolding initial exec begins_1 begins_2 writes begun locked_one locked_both one_waits both_wait
    ℤ_discrete is_odd home_site get_site is_write_available new_site get_variable has_shared_lock
    new_variable has_exclusive_lock_exclude_self has_shared_lock_exclude_self has_exclusive_lock
    deref_variable put_site put_variable on_site on_copy ◌+ℤ◌ new_transaction
    set_exclusive_transaction
both_wait-Reached = ran (writes (pos 10006) (pos 2) (pos 1)) both_wait one_waits-Reached refl refl

-- The graph of the example has a cycle.
both_wait_graph :
    both_wait.lock_manager.wait_for_graph ≡ (pos 2, pos 1 ∷ []) ∷ (pos 1, pos 2 ∷ []) ∷ []
unfolding initial exec begins_1 begins_2 writes begun locked_one locked_both one_waits both_wait
    ℤ_discrete is_odd home_site get_site is_write_available new_site get_variable has_shared_lock
    new_variable has_exclusive_lock_exclude_self has_shared_lock_exclude_self has_exclusive_lock
    deref_variable put_site put_variable on_site on_copy ◌+ℤ◌ new_transaction
    set_exclusive_transaction
both_wait_graph = refl

Reached-Roll_example : Roll both_wait
Reached-Roll_example = Reached-Roll both_wait both_wait-Reached

break_deadlocks-Reached_example :
    (tm' : TransactionManager) × (break_deadlocks
        (suc (length both_wait.transactions_set))
        both_wait
      ≡ ok (tt, tm'))
    × Reached tm'
    × ¬ IsCyclic tm'.lock_manager.wait_for_graph
break_deadlocks-Reached_example = break_deadlocks-Reached both_wait both_wait-Reached
