-- ===== src/Tests/Runs.antt =====
-- Examples for the theorems on whole runs.
use rep_crec.Base.{
  inr, ℤ_discrete, ◌+ℤ◌, range, ◌≡◌, refl, Bool, false, none, some, List, [], ◌∷◌, ◌++◌, ok, pos,
}
use rep_crec.LockManager.{is_waiting_for_lock, is_waiting_for_others, is_waiting}
use rep_crec.Global.{is_odd, home_site}
use rep_crec.SiteManager.{deref_copy, get_site, put_site, on_site, on_copy, site_ids}
use rep_crec.Site.{
  set_write_available, set_unavailable, dump, is_write_available, is_read_available, new_site,
  get_variable, deref_variable, put_variable, assign_var, set_read_available, set_all,
}
use rep_crec.Variable.{
  add_shared_transaction, get_value, set_exclusive_transaction, has_shared_lock, new_variable,
  has_exclusive_lock_exclude_self, has_shared_lock_exclude_self, has_exclusive_lock,
  remove_shared_owner, remove_exclusive_owner, set_value, set_version,
}
use rep_crec.Transaction.{new_transaction, is_written_into_site}
use rep_crec.Site.Print.{print_row}
use rep_crec.Instruction.{Instruction, new_instruction}
use rep_crec.Instruction.Text.{Text, codes}
use rep_crec.TransactionManager.{initial, is_transaction_waiting_for_site}
use rep_crec.Driver.{execute_advanced_database}
use rep_crec.Driver.Check.{Report, score}
use rep_crec.Driver.Check.Lines.{joined}
use rep_crec.Driver.Main.{written, Files, report_all, main_one}
use rep_crec.Driver.Main.Verdict.{count, main_one-score}
use rep_crec.Tests.States.{after}
use rep_crec.Tests.Program.Test1.{input_1, output_1}

abbrev memory : Instruction
unfolding new_instruction
memory = new_instruction (pos 0)

-- One test case.
abbrev one_case : Files
one_case = record {
  input = λ name. some (joined input_1);
  result = λ name. some (joined output_1);
  output = λ name. none;
}

main_one-score_example :
    (reports : List Report) × (files' : Files) × (main_one memory 9 []
        (codes "test")
        (codes "Test1")
        one_case
      ≡ ok (
        report_all (reports ++ (score (count ((codes "Test1", output_1, output_1) ∷ [])) 1 ∷ [])),
        files',
      ))
unfolding execute_advanced_database initial memory count ℤ_discrete ◌+ℤ◌ range is_waiting_for_lock
    is_waiting_for_others is_waiting is_transaction_waiting_for_site is_odd home_site get_site
    put_site on_site on_copy site_ids is_write_available is_read_available new_site get_variable
    deref_variable put_variable assign_var set_read_available set_all has_shared_lock new_variable
    has_exclusive_lock_exclude_self has_shared_lock_exclude_self has_exclusive_lock
    remove_shared_owner remove_exclusive_owner set_value set_version new_transaction
    is_written_into_site print_row set_exclusive_transaction dump deref_copy get_value
    add_shared_transaction set_unavailable set_write_available written
main_one-score_example =
    main_one-score memory 9 [] (codes "Test1") (joined input_1) input_1 output_1 output_1 one_case
      {tm = after (execute_advanced_database memory 9 input_1 initial)} refl (inr (refl, refl)) refl
      refl refl refl refl

-- No file is there.
abbrev no_files : Files
no_files = record { input = λ name. none; result = λ name. none; output = λ name. none }

abbrev listed : List (Text × Bool)
listed = (codes "Test1", false) ∷ []
