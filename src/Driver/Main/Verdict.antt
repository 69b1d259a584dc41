-- ===== src/Driver/Main/Verdict.antt =====
-- The score that the program prints.
use rep_crec.Base.{
  ℕ, suc, ◌+◌, Bool, true, ◌&&◌, ◌≡◌, refl, ap, sym, ◌∙◌, Option, some, List, [], ◌∷◌, ◌++◌, length,
  Result, ok, ◌>>=◌, if◌then◌else◌, arith,
}
use rep_crec.Instruction.{Instruction}
use rep_crec.Instruction.Text.{Text, codes}
use rep_crec.TransactionManager.{TransactionManager, initial}
use rep_crec.Driver.{execute_advanced_database}
use rep_crec.Driver.Check.{Report, score, same_line, check_files, execute_test_case_check}
use rep_crec.Driver.Check.Lines.{joined, terminated, are_lines, none_empty, is_prefix}
use rep_crec.Driver.Check.Prefix.{check_file-joined}
use rep_crec.Driver.Check.Total.{append_assoc}
use rep_crec.Driver.Main.{Files, Console, report_all, run_file, main_one, write_output, written}
use rep_crec.Driver.Main.Lines.{IsFileOf, run_file-lines}

-- A test case with its expected lines and the lines of its output.
abbrev pub Case : Type 0
Case = Text × List Text × List Text

abbrev pub files_of : List Case → List (Text × Option Text × Option Text)
files_of [] = []
files_of ((name, ls, ms) ∷ cs) = (name, some (joined ls), some (terminated ms)) ∷ files_of cs

abbrev pub well_formed : List Case → Bool
well_formed [] = true
well_formed ((name, ls, ms) ∷ cs) =
    are_lines ls && (none_empty ls && (are_lines ms && well_formed cs))

-- How many cases have the expected lines at the beginning of their output.
unfoldable pub count : List Case → ℕ
unfolding is_prefix
count [] = 0
count ((name, ls, ms) ∷ cs) = if is_prefix ls ms then suc (count cs) else count cs

check_files-score :
    (cs : List Case) (right total : ℕ)
    → well_formed cs ≡ true
    → (reports : List Report) × (check_files (files_of cs) right total
        ≡ ok (reports ++ (score (right + count cs) total ∷ [])))
unfolding check_files count
check_files-score [] right total h = ([], ap (λ n. ok (score n total ∷ [])) (omega arith))
check_files-score ((name, ls, ms) ∷ cs) right total h =
    let (reports, e) = check_file-joined name ls ms (ground arith) (ground arith) (ground arith) in
    let right' = if is_prefix ls ms then suc right else right in
    let (later, k) = check_files-score cs right' total (ground arith) in
    (
      reports ++ later,
      ap (λ r. r >>= next right total cs) e
          ∙ ap (λ r. r >>= λ l. ok (reports ++ l)) k
          ∙ ap ok (
              sym (append_assoc reports later (score (right' + count cs) total ∷ []))
              ∙ ap (λ n. (reports ++ later) ++ (score n total ∷ [])) counted),
    )
  where
    next : ℕ → ℕ → List Case → Bool × List Report → Result (List Report)
    next right total cs (passed, reports) =
        check_files (files_of cs) (if passed then suc right else right) total >>= λ later.
        ok (reports ++ later)

    counted :
        (if is_prefix ls ms then suc right else right) + count cs
        ≡ right + (if is_prefix ls ms then suc (count cs) else count cs)
    counted = ground arith

-- The check of the test cases ends with a score: as many as have the expected lines at the beginning
-- of their output, of all of them. The expected files have no empty line and end without a newline,
-- and each line of an output is followed by one.
pub execute_test_case_check-score :
    (cs : List Case)
    → well_formed cs ≡ true
    → (reports : List Report) × (execute_test_case_check (files_of cs)
        ≡ ok (reports ++ (score (count cs) (length (files_of cs)) ∷ [])))
unfolding execute_test_case_check
execute_test_case_check-score cs h =
    let (reports, e) = check_files-score cs 0 (length (files_of cs)) h in
    (reports, e ∙ ap (λ n. ok (reports ++ (score n (length (files_of cs)) ∷ []))) (omega arith))

same_line_self : (s : Text) → same_line s s ≡ true
unfolding same_line
same_line_self [] = refl
same_line_self (c ∷ s) = ground (arith, same_line_self s)

module _ (memory : Instruction) (fuel : ℕ) (lost : Text) where
  -- A run of one test case in test mode, from the files to the score. Where the run of the lines of
  -- the input ends, the program prints a score of one if the expected lines are the first lines of
  -- what the dumps wrote, and of none otherwise. The input may end with a newline or without one. Each
  -- line of the output is followed by a newline; the expected file has no empty line and, as in all
  -- the test cases of the repository, no newline at its end.
  pub main_one-score :
      (name text : Text) (ins ls out : List Text) (files : Files) {tm : TransactionManager}
      → files.input name ≡ some text
      → IsFileOf ins text
      → are_lines ins ≡ true
      → execute_advanced_database memory fuel ins initial ≡ ok (tt, tm)
      → written tm.log ≡ terminated out
      → files.result name ≡ some (joined ls)
      → well_formed ((name, ls, out) ∷ []) ≡ true
      → (reports : List Report) × (files' : Files) × (main_one memory fuel lost
            (codes "test")
            name
            files
          ≡ ok (report_all (reports ++ (score (count ((name, ls, out) ∷ [])) 1 ∷ [])), files'))
  unfolding main_one write_output same_line
  main_one-score name text ins ls out files {tm} i f h run w r wf =
      let e : run_file memory fuel name files ≡ ok tm =
        run_file-lines memory fuel name files ins text i f h
        ∙ ap (λ r. r >>= λ (_, tm). ok tm) run in
      let (reports, k) = execute_test_case_check-score ((name, ls, out) ∷ []) wf in
      let files' = write_output name (written tm.log) files in
      let print = λ (rs : List Report). ok (report_all rs, files') in
      let o : files'.output name ≡ some (terminated out) =
        rw (same_line_self name) (ap (λ t. some t) w) in
      (
        reports,
        files',
        ap (λ x. x >>= score_of name) e
            ∙ ap (λ x. execute_test_case_check ((name, files.result name, x) ∷ []) >>= print) o
            ∙ ap (λ x. execute_test_case_check ((name, x, some (terminated out)) ∷ []) >>= print) r
            ∙ ap (λ x. x >>= print) k,
      )
    where
      score_of : Text → TransactionManager → Result (List Console × Files)
      score_of name tm =
          let files' = write_output name (written tm.log) files in
          execute_test_case_check ((name, files'.result name, files'.output name) ∷ [])
          >>= λ reports. ok (report_all reports, files')
