-- ===== src/Tests/Invariants.antt =====
-- Examples for the theorems on the locks and on the end of a transaction.
use rep_crec.Variable.{
  has_exclusive_lock, has_shared_lock_exclude_self, has_exclusive_lock_exclude_self, new_variable,
  has_shared_lock,
}
use rep_crec.Site.{
  set_read_available, assign_var, put_variable, deref_variable, get_variable, new_site,
  is_write_available,
}
use rep_crec.SiteManager.{on_copy, on_site, put_site, get_site}
use rep_crec.LockManager.{is_waiting_for_lock}
use rep_crec.Base.{◌+ℤ◌, insert, refl, some, [], ◌∷◌, List, pos, minus_one, ℤ_discrete}
use rep_crec.Global.{is_odd, home_site}
use rep_crec.Instruction.{Instruction, new_instruction}
use rep_crec.Instruction.Text.{Text, codes}
use rep_crec.Driver.{run_lines}
use rep_crec.Driver.Locks.{initial-Inv, run_lines-Inv}
use rep_crec.TransactionManager.{is_transaction_waiting_for_site, TransactionManager, initial}
use rep_crec.TransactionManager.Execute.{execute_instructions}
use rep_crec.Transaction.{new_transaction}
use rep_crec.Request.{write_request}
use rep_crec.TransactionManager.Inv.{Inv, insert-Inv}
use rep_crec.TransactionManager.Inv.Run.{execute_instructions_keeps}
use rep_crec.Request.Exec.{exec_end}
use rep_crec.Request.Exec.Finish.{Gone, exec_end-Gone}
use rep_crec.Tests.States.{after, a_transaction}

abbrev memory : Instruction
unfolding new_instruction
memory = new_instruction (pos 0)

abbrev one_write : List Text
one_write = codes "begin(T1)" ∷ codes "W(T1,x3,5)" ∷ []

run_lines-Inv_example : Inv (after (run_lines memory one_write initial))
unfolding run_lines initial ℤ_discrete is_waiting_for_lock is_transaction_waiting_for_site is_odd
    get_site home_site is_write_available new_site get_variable has_shared_lock new_variable
    has_exclusive_lock_exclude_self has_shared_lock_exclude_self has_exclusive_lock deref_variable
run_lines-Inv_example =
    run_lines-Inv memory one_write {tm = after (run_lines memory one_write initial)} refl

-- Transaction 1 is about to write variable 3 in the first state.
abbrev about_to_write : TransactionManager
unfolding initial
about_to_write = record initial {
  transactions = insert (pos 1) (a_transaction (pos 1) (pos 10001) []) initial.transactions;
  transactions_set = (pos 10001, pos 1) ∷ [];
  request = some (write_request (pos 10002) (pos 1) minus_one (pos 3) (pos 5));
}

execute_instructions_keeps_example : Inv (after (execute_instructions about_to_write))
unfolding execute_instructions initial ℤ_discrete is_waiting_for_lock
    is_transaction_waiting_for_site is_odd get_site home_site is_write_available new_site
    get_variable has_shared_lock new_variable has_exclusive_lock_exclude_self
    has_shared_lock_exclude_self has_exclusive_lock deref_variable
execute_instructions_keeps_example =
    execute_instructions_keeps about_to_write {tm' = after (execute_instructions about_to_write)}
      (insert-Inv (pos 1) (a_transaction (pos 1) (pos 10001) []) initial initial-Inv) refl

-- The state that the two lines leave: transaction 1 has locked variable 3.
abbrev after_write : TransactionManager
unfolding run_lines initial
after_write = after (run_lines memory one_write initial)

exec_end-Gone_example : Gone (pos 1) (after (exec_end (pos 10003) (pos 1) after_write))
unfolding exec_end initial run_lines after_write ◌+ℤ◌ ℤ_discrete is_waiting_for_lock
    is_transaction_waiting_for_site is_odd get_site home_site is_write_available new_site
    get_variable has_shared_lock new_variable has_exclusive_lock_exclude_self
    has_shared_lock_exclude_self has_exclusive_lock deref_variable new_transaction put_site
    put_variable on_site assign_var on_copy set_read_available
exec_end-Gone_example =
    exec_end-Gone (pos 10003) (pos 1)
      (a_transaction (pos 1) (pos 10001) ((pos 4, (pos 3, pos 5) ∷ []) ∷ [])) after_write
      {tm' = after (exec_end (pos 10003) (pos 1) after_write)}
      (run_lines-Inv memory one_write {tm = after_write} refl) refl refl refl
