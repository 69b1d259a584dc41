-- ===== src/Instruction/Parse.antt =====
-- `Instruction(const std::string&)`. A field that the constructor leaves uninitialised keeps what
-- the memory held: the argument `memory`.
use rep_crec.Base.{ℕ, ◌+◌, ◌-◌, ◌*◌, ◌%◌, List, if◌then◌else◌, ℤ, Result, ok, ◌>>=◌}
use rep_crec.Instruction.{
  Instruction, InstructType, unknown, begin, begin_ro, read, write, recover, fail, dump, end,
}
use rep_crec.Instruction.Text.{
  Text, codes, size_mod, starts_with, find_first_of, drop, substr, stoi, split_arguments, token_at,
}

-- `insr.find_first_of('(') + 1`, which wraps to 0 if there is no bracket
unfoldable pub start_of : Text → ℕ
unfolding find_first_of
start_of insr = (find_first_of b'(' insr + 1) % size_mod

-- `stoi(insr.substr(start + 1, end - start - 1))`: the digits behind the letter T
unfoldable pub tran_argument : Text → Result ℤ
unfolding start_of find_first_of substr stoi
tran_argument insr = do
  s ←
      substr ((start_of insr + 1) % size_mod)
        ((find_first_of b')' insr + size_mod * 2 - start_of insr - 1) % size_mod) insr
  stoi s

-- `stoi(insr.substr(start, end - start))`
unfoldable pub site_argument : Text → Result ℤ
unfolding start_of find_first_of substr stoi
site_argument insr = do
  s ← substr (start_of insr) ((find_first_of b')' insr + size_mod - start_of insr) % size_mod) insr
  stoi s

unfoldable pub arguments : Text → Result (List Text)
unfolding start_of split_arguments
arguments insr = split_arguments (codes "") (drop ((start_of insr + 1) % size_mod) insr)

-- `stoi(tokens[i])`
unfoldable pub number_at : ℕ → List Text → Result ℤ
unfolding token_at stoi
number_at i tokens = do t ← token_at i tokens; stoi t

-- `stoi(tokens[1].substr(1))`
unfoldable pub var_at : List Text → Result ℤ
unfolding token_at stoi substr
var_at tokens = do t ← token_at 1 tokens; s ← substr 1 (size_mod - 1) t; stoi s

unfoldable pub with_tran : InstructType → Instruction → Text → Result Instruction
unfolding tran_argument
with_tran type memory insr = do
  t ← tran_argument insr
  ok (record memory { type = type; tran_id = t })

unfoldable pub with_site : InstructType → Instruction → Text → Result Instruction
unfolding site_argument
with_site type memory insr = do
  s ← site_argument insr
  ok (record memory { type = type; site_id = s })

unfoldable pub parse_write : Instruction → Text → Result Instruction
unfolding arguments number_at var_at
parse_write memory insr = do
  tokens ← arguments insr
  t ← number_at 0 tokens
  x ← var_at tokens
  v ← number_at 2 tokens
  ok (record memory { type = write; tran_id = t; var_id = x; var_value = v })

unfoldable pub parse_read : Instruction → Text → Result Instruction
unfolding arguments number_at var_at
parse_read memory insr = do
  tokens ← arguments insr
  t ← number_at 0 tokens
  x ← var_at tokens
  ok (record memory { type = read; tran_id = t; var_id = x })

unfoldable pub parse : ℤ → Instruction → Text → Result Instruction
unfolding starts_with with_tran with_site parse_write parse_read
parse id memory insr =
    let m = record memory { id = id } in
    if starts_with (codes "beginRO") insr
    then with_tran begin_ro m insr
    else if starts_with (codes "begin") insr
    then with_tran begin m insr
    else if starts_with (codes "end") insr
    then with_tran end m insr
    else if starts_with (codes "dump") insr
    then ok (record m { type = dump })
    else if starts_with (codes "recover") insr
    then with_site recover m insr
    else if starts_with (codes "fail") insr
    then with_site fail m insr
    else if starts_with (codes "W") insr
    then parse_write m insr
    else if starts_with (codes "R") insr
    then parse_read m insr
    else ok (record m { type = unknown })
