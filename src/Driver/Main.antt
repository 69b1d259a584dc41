-- ===== src/Driver/Main.antt =====
-- main.cpp: `main`, and `execute_advanced_database` over the text of the input file. The files and the
-- listing of the input directory are data; a process that is started for an input is its run.
pub mod Lines
pub mod Verdict
pub mod Total
use rep_crec.Base.{
  ℕ, zero, suc, Bool, true, false, Option, none, some, List, [], ◌∷◌, ◌++◌, length, ℤ, Result, ok,
  err, out_of_fuel, invalid_argument, out_of_range, Error, ◌>>=◌, if◌then◌else◌,
}
use rep_crec.Instruction.{Instruction}
use rep_crec.Instruction.Text.{Text, codes}
use rep_crec.SiteManager.Print.{print_dump}
use rep_crec.Request.{Message, dumped}
use rep_crec.TransactionManager.{TransactionManager, initial}
use rep_crec.Driver.{execute_advanced_database}
use rep_crec.Driver.Check.{Stream, open_file, getline, same_line, Report, execute_test_case_check}

-- `while (getline(insr_file, insr))`, as the list of the lines.
unfoldable pub read_lines : ℕ → Stream → Text → Result (List Text)
unfolding getline
read_lines zero file insr = err out_of_fuel
read_lines (suc fuel) file insr =
    let (more, line, file') = getline file insr in
    let rest = read_lines fuel file' line in
    if more then (rest >>= λ lines. ok (line ∷ lines)) else ok []

-- The part of a dump in what one printed line is.
unfoldable pub print_message : Bool → Message → Text
unfolding print_dump
print_message use_file (dumped rows) = print_dump use_file rows
print_message use_file _ = []

-- What the dumps write into the file, from the log, whose last entry stands in front.
unfoldable pub written : List (ℤ × Message) → Text
unfolding print_message
written [] = []
written ((_, m) ∷ log) = written log ++ print_message true m

pub record Files : Type 0 where
  pub input : Text → Option Text
  pub result : Text → Option Text
  pub output : Text → Option Text

unfoldable pub write_output : Text → Text → Files → Files
write_output name text files = record files {
  output = λ n. if same_line n name then some text else files.output n;
}

-- What `main` itself prints.
pub data Console : Type 0 where
  rule : Console
  start : Text → Console
  failed : Text → Console
  report : Report → Console

abbrev pub report_all : List Report → List Console
report_all [] = []
report_all (r ∷ rs) = report r ∷ report_all rs

module _ (memory : Instruction) (fuel : ℕ) where
  -- `execute_advanced_database(file_name, mode)`, with the state that it leaves.
  unfoldable pub run_file : Text → Files → Result TransactionManager
  unfolding read_lines execute_advanced_database initial
  run_file name files =
      let file = open_file (files.input name) in
      read_lines (suc (length file.rest)) file [] >>= λ lines.
      execute_advanced_database memory fuel lines initial >>= λ (_, tm). ok tm

-- The names that are checked, with the two files of each.
unfoldable pub file_names : List (Text × Bool) → Files → List (Text × Option Text × Option Text)
file_names [] files = []
file_names ((name, is_directory) ∷ entries) files =
    let rest = file_names entries files in
    if is_directory then rest else (name, files.result name, files.output name) ∷ rest

-- `lost` is what a process that ends with an exception has written into its file.
module _ (memory : Instruction) (fuel : ℕ) (lost : Text) where
  -- What is left of the process of one input, and of the wait for it. An exception ends the process
  -- with a failure; of undefined behaviour nothing is said.
  unfoldable pub settle : Text → Files → Result TransactionManager → Result (List Console × Files)
  unfolding written write_output
  settle name files (ok tm) = ok ([], write_output name (written tm.log) files)
  settle name files (err invalid_argument) = ok (failed name ∷ [], write_output name lost files)
  settle name files (err out_of_range) = ok (failed name ∷ [], write_output name lost files)
  settle name files (err e) = err e

  unfoldable pub run_child : Text → Files → Result (List Console × Files)
  unfolding run_file settle
  run_child name files = settle name files (run_file memory fuel name files)

  -- `while ((entry = readdir(dp)))`: of each entry the name and whether it is a directory.
  unfoldable pub run_directory : List (Text × Bool) → Files → Result (List Console × Files)
  unfolding run_child
  run_directory [] files = ok ([], files)
  run_directory ((name, is_directory) ∷ entries) files =
      let later = λ (files' : Files). run_directory entries files' in
      if is_directory
      then later files
      else (run_child name files >>= λ (printed, files').
          later files' >>= λ (more, files''). ok (rule ∷ start name ∷ (printed ++ more), files''))

  unfoldable pub main_all : List (Text × Bool) → Files → Result (List Console × Files)
  unfolding run_directory file_names execute_test_case_check
  main_all entries files = run_directory entries files >>= λ (printed, files').
      execute_test_case_check (file_names entries files') >>= λ reports.
      ok (printed ++ report_all reports, files')

  unfoldable pub main_one : Text → Text → Files → Result (List Console × Files)
  unfolding run_file written write_output execute_test_case_check
  main_one mode name files = run_file memory fuel name files >>= λ tm.
      let files' =
        if same_line mode (codes "test") then write_output name (written tm.log) files else files in
      execute_test_case_check ((name, files'.result name, files'.output name) ∷ []) >>= λ reports.
      ok (report_all reports, files')

  -- `main(argc, argv)`
  unfoldable pub main : List Text → List (Text × Bool) → Files → Result (List Console × Files)
  unfolding main_all main_one
  main (program ∷ mode ∷ name ∷ _) entries files =
      let one = main_one mode name files in
      if same_line name (codes "all") then main_all entries files else one
  main _ entries files = err invalid_argument
