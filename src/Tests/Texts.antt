-- ===== src/Tests/Texts.antt =====
-- Examples for the theorems on the parser.
use rep_crec.Base.{◌≡◌, negsuc, pos, ok, arith}
use rep_crec.Instruction.{Instruction, new_instruction, write, read}
use rep_crec.Instruction.Parse.{parse}
use rep_crec.Instruction.Print.{print_write, print_read}
use rep_crec.Instruction.Print.RoundTrip.{parse-print_write, parse-print_read}

abbrev memory : Instruction
unfolding new_instruction
memory = new_instruction (pos 0)

parse-print_write_example :
    parse (pos 7) memory (print_write 12 20 (negsuc 104))
    ≡ ok (record memory {
      id = pos 7;
      type = write;
      tran_id = pos 12;
      var_id = pos 20;
      var_value = negsuc 104;
    })
parse-print_write_example =
    parse-print_write (pos 7) memory 12 20 (negsuc 104) (omega arith) (omega arith) (omega arith)

parse-print_read_example :
    parse (pos 7) memory (print_read 12 20)
    ≡ ok (record memory { id = pos 7; type = read; tran_id = pos 12; var_id = pos 20 })
parse-print_read_example = parse-print_read (pos 7) memory 12 20 (omega arith) (omega arith)
