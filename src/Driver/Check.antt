-- ===== src/Driver/Check.antt =====
-- main.cpp: `execute_test_case_check`, over the files' contents. A stream of the standard library is
-- what is left to read and whether it may be read from.
pub mod Lines
pub mod Prefix
pub mod Verdict
pub mod Total
use rep_crec.Base.{
  ℕ, zero, suc, ◌+◌, Bool, true, false, not, ◌&&◌, ◌||◌, ◌==◌, Option, none, some, List, [], ◌∷◌,
  ◌++◌, length, Result, ok, err, out_of_fuel, ◌>>=◌, if◌then◌else◌,
}
use rep_crec.Instruction.Text.{Text}

pub record Stream : Type 0 where
  pub rest : Text
  pub good : Bool

-- `ifstream(name)`: a file that is not there cannot be read from.
abbrev pub open_file : Option Text → Stream
open_file none = record { rest = []; good = false }
open_file (some s) = record { rest = s; good = true }

-- The text up to the next newline, whether there is one, and what comes after it.
unfoldable pub take_line : Text → Text × Bool × Text
take_line [] = ([], false, [])
take_line (c ∷ s) =
    let (line, ended, rest) = take_line s in
    if c == 10 then ([], true, s) else (c ∷ line, ended, rest)

abbrev pub is_empty_line : Text → Bool
is_empty_line [] = true
is_empty_line (c ∷ s) = false

-- `std::getline`: a stream that is not good leaves the line as it was. Otherwise the line is
-- replaced, and the read fails where nothing was taken. Without a newline the end is reached.
unfoldable pub getline : Stream → Text → Bool × Text × Stream
unfolding take_line
getline f line =
    let (text, ended, rest) = take_line f.rest in
    if f.good
    then (ended || not (is_empty_line text), text, record { rest = rest; good = ended })
    else (false, line, f)

unfoldable pub same_line : Text → Text → Bool
same_line [] [] = true
same_line [] (d ∷ t) = false
same_line (c ∷ s) [] = false
same_line (c ∷ s) (d ∷ t) = (c == d) && same_line s t

-- What is printed.
pub data Report : Type 0 where
  test_case : Text → Report
  wrong_line : Text → Text → Report
  pass : Report
  score : ℕ → ℕ → Report

-- The `while` loop, with the two lines that it leaves.
unfoldable pub compare_lines :
    ℕ → Stream → Stream → Text → Text → Result (Text × Text × List Report)
unfolding getline same_line
compare_lines zero results outputs result_line output_line = err out_of_fuel
compare_lines (suc fuel) results outputs result_line output_line =
    let (more, result, results') = getline results result_line in
    let (more', output, outputs') = getline outputs output_line in
    let next = compare_lines fuel results' outputs' result output in
    if more
    then (if more'
        then (if same_line result output
            then next
            else ok (result, output, wrong_line result output ∷ []))
        else ok (result, output, []))
    else ok (result, output_line, [])

-- `if (resultLine == outputLine)`, after the loop.
unfoldable pub judge : Text → Text × Text × List Report → Result (Bool × List Report)
unfolding same_line
judge name (result, output, reports) =
    if same_line result output
    then ok (true, test_case name ∷ (reports ++ (pass ∷ [])))
    else ok (false, test_case name ∷ reports)

-- One round of the `for` loop: whether the test case is counted as right, and the report.
unfoldable pub check_file : Text → Option Text → Option Text → Result (Bool × List Report)
unfolding compare_lines judge
check_file name result_file output_file =
    let results = open_file result_file in
    compare_lines (suc (length results.rest)) results (open_file output_file) [] [] >>= judge name

-- The `for` loop over the names with the two files of each, and the last line.
unfoldable pub check_files : List (Text × Option Text × Option Text) → ℕ → ℕ → Result (List Report)
unfolding check_file
check_files [] right total = ok (score right total ∷ [])
check_files ((name, result_file, output_file) ∷ files) right total =
    check_file name result_file output_file >>= λ (passed, reports).
    check_files files (if passed then suc right else right) total >>= λ later. ok (reports ++ later)

unfoldable pub execute_test_case_check :
    List (Text × Option Text × Option Text) → Result (List Report)
unfolding check_files
execute_test_case_check files = check_files files 0 (length files)
