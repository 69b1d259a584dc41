-- ===== src/Tests/Program.antt =====
-- Test cases of the repository, run as the program runs them all.
pub mod Test1
pub mod Test2
pub mod Test3_5
pub mod Test10
pub mod Test20
use rep_crec.Base.{
  Bool, false, if◌then◌else◌, err, ℤ_discrete, ◌+ℤ◌, range, ◌≡◌, refl, Option, none, some, List, [],
  ◌∷◌, ◌++◌, Result, ok, pos,
}
use rep_crec.LockManager.{is_waiting_for_lock, is_waiting_for_others, is_waiting}
use rep_crec.TransactionManager.{is_transaction_waiting_for_site}
use rep_crec.Global.{is_odd, home_site}
use rep_crec.SiteManager.{deref_copy, get_site, put_site, on_site, on_copy, site_ids}
use rep_crec.Site.{
  set_write_available, set_unavailable, dump, is_write_available, is_read_available, new_site,
  get_variable, deref_variable, put_variable, assign_var, set_read_available, set_all,
}
use rep_crec.Variable.{
  add_shared_transaction, get_value, set_exclusive_transaction, has_shared_lock, new_variable,
  has_exclusive_lock_exclude_self, has_shared_lock_exclude_self, has_exclusive_lock,
  remove_shared_owner, remove_exclusive_owner, set_value, set_version,
}
use rep_crec.Transaction.{new_transaction, is_written_into_site}
use rep_crec.Site.Print.{print_row}
use rep_crec.Instruction.{Instruction, new_instruction}
use rep_crec.Instruction.Text.{Text, codes}
use rep_crec.Driver.Check.{same_line, score}
use rep_crec.Driver.Check.Lines.{joined}
use rep_crec.Tests.Program.Test1.{input_1, output_1}
use rep_crec.Tests.Program.Test2.{input_2, output_2}
use rep_crec.Tests.Program.Test3_5.{input_3_5, output_3_5}
use rep_crec.Tests.Program.Test10.{input_10, output_10}
use rep_crec.Tests.Program.Test20.{input_20, output_20}
use rep_crec.Driver.Main.{Files, Console, report, main}

abbrev pub memory : Instruction
unfolding new_instruction
memory = new_instruction (pos 0)

abbrev inputs : Text → Option Text
inputs name =
    if same_line name (codes "Test1")
    then some (joined input_1)
    else if same_line name (codes "Test2")
    then some (joined input_2)
    else if same_line name (codes "Test3.5")
    then some (joined input_3_5)
    else if same_line name (codes "Test10")
    then some (joined input_10)
    else if same_line name (codes "Test20")
    then some (joined input_20)
    else none

abbrev results : Text → Option Text
results name =
    if same_line name (codes "Test1")
    then some (joined output_1)
    else if same_line name (codes "Test2")
    then some (joined output_2)
    else if same_line name (codes "Test3.5")
    then some (joined output_3_5)
    else if same_line name (codes "Test10")
    then some (joined output_10)
    else if same_line name (codes "Test20")
    then some (joined output_20)
    else none

abbrev pub files : Files
files = record { input = inputs; result = results; output = λ name. none }

abbrev entries : List (Text × Bool)
entries =
    (codes "Test1", false)
    ∷ (codes "Test2", false)
    ∷ (codes "Test3.5", false)
    ∷ (codes "Test10", false)
    ∷ (codes "Test20", false)
    ∷ []

abbrev last_printed : Result (List Console × Files) → Option Console
last_printed (ok (printed, _)) = last printed
  where
    last : List Console → Option Console
    last [] = none
    last (c ∷ []) = some c
    last (c ∷ d ∷ cs) = last (d ∷ cs)
last_printed (err e) = none

-- All these test cases pass.
passes :
    last_printed (main memory 9 [] (codes "main" ∷ codes "test" ∷ codes "all" ∷ []) entries files)
    ≡ some (report (score 5 5))
unfolding main memory ℤ_discrete ◌+ℤ◌ range is_waiting_for_lock is_waiting_for_others is_waiting
    is_transaction_waiting_for_site is_odd home_site get_site put_site on_site on_copy site_ids
    is_write_available is_read_available new_site get_variable deref_variable put_variable
    assign_var set_read_available set_all has_shared_lock new_variable
    has_exclusive_lock_exclude_self has_shared_lock_exclude_self has_exclusive_lock
    remove_shared_owner remove_exclusive_owner set_value set_version new_transaction
    is_written_into_site print_row set_exclusive_transaction dump deref_copy get_value
    add_shared_transaction set_unavailable set_write_available
passes = refl
