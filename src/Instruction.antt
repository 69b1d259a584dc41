-- ===== src/Instruction.antt =====
-- repcrec/instruction: the instruction types and `Instruction`, whose parser is in Instruction/Parse.
pub mod Text
pub mod Parse
pub mod Print
use rep_crec.Base.{ℤ, minus_one}

pub data InstructType : Type 0 where
  unknown begin begin_ro read write recover fail dump end : InstructType

pub record Instruction : Type 0 where
  pub id : ℤ
  pub type : InstructType
  pub var_id : ℤ
  pub var_value : ℤ
  pub site_id : ℤ
  pub tran_id : ℤ

-- `Instruction()`; the static counter is the argument.
unfoldable pub new_instruction : ℤ → Instruction
new_instruction id = record {
  id = id;
  type = unknown;
  var_id = minus_one;
  var_value = minus_one;
  site_id = minus_one;
  tran_id = minus_one;
}
