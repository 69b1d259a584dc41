-- ===== src/Driver.antt =====
-- main.cpp: `execute_advanced_database`, over the lines of the input file.
pub mod Check
pub mod Locks
pub mod Main
use rep_crec.Base.{
  ℕ, zero, suc, true, false, List, [], ◌∷◌, pos, ◌+ℤ◌, if◌then◌else◌, err, out_of_fuel,
}
use rep_crec.Instruction.{Instruction}
use rep_crec.Instruction.Text.{Text, codes, starts_with}
use rep_crec.Instruction.Parse.{parse}
use rep_crec.TransactionManager.{
  Action, Done, ◌>>=◌, ◌>>◌, pure, lift, gets, modify, is_all_instructions_finished,
}
use rep_crec.TransactionManager.Instruct.{add_instruction}
use rep_crec.TransactionManager.Execute.{execute_instructions}

unfoldable pub tick : Action Done
tick = modify λ tm. record tm { curr_timestamp = tm.curr_timestamp +ℤ pos 1 }

-- `while (!is_all_instructions_finished())`
unfoldable pub drain : ℕ → Action Done
unfolding execute_instructions tick is_all_instructions_finished
drain zero = lift (err out_of_fuel)
drain (suc fuel) =
    gets is_all_instructions_finished
    >>= elim [ true ↦ pure tt | false ↦ do execute_instructions; tick; drain fuel ]

-- `memory` is what an instruction's fields hold before it is constructed. The ids that the static
-- counter gives are read nowhere: they are that of `memory`, too.
module _ (memory : Instruction) where
  unfoldable pub instruct : Text → Action Done
  unfolding parse add_instruction
  instruct insr = do
    i ← lift (parse memory.id memory insr)
    now ← gets (λ tm. tm.curr_timestamp)
    add_instruction i now

  unfoldable pub run_line : Text → Action Done
  unfolding starts_with tick instruct execute_instructions
  run_line insr =
      if starts_with (codes "dump") insr
      then pure tt
      else (do tick; instruct insr; execute_instructions)

  unfoldable pub run_lines : List Text → Action Done
  unfolding run_line
  run_lines [] = pure tt
  run_lines (insr ∷ lines) = do run_line insr; run_lines lines

  unfoldable pub execute_advanced_database : ℕ → List Text → Action Done
  unfolding run_lines drain instruct tick execute_instructions
  execute_advanced_database fuel lines = do
    run_lines lines
    drain fuel
    instruct (codes "dump()")
    tick
    execute_instructions
