-- ===== src/Tests/Cases.antt =====
-- Examples for the theorems on the check of the test cases.
use rep_crec.Base.{◌≡◌, refl, true, false, none, some, List, [], ◌∷◌, ok}
use rep_crec.Instruction.Text.{Text, codes}
use rep_crec.Driver.Check.{Report, test_case, pass, check_file}
use rep_crec.Driver.Check.Lines.{joined, terminated, is_prefix}
use rep_crec.Driver.Check.Verdict.{check_file_lem}

-- One line is expected.
abbrev expected : List Text
expected = codes "site 1" ∷ []

-- The output has one more.
abbrev printed : List Text
printed = codes "site 1" ∷ codes "site 2" ∷ []

check_file_lem_example :
    (joined_case : (reports : List Report) × (check_file
          (codes "Test1")
          (some (joined expected))
          (some (terminated printed))
        ≡ ok (is_prefix expected printed, reports)))
    × (terminated_case : (reports : List Report) × (check_file
            (codes "Test1")
            (some (terminated expected))
            (some (terminated printed))
          ≡ ok (false, reports)))
    × (check_file (codes "Test1") none (some (terminated printed))
        ≡ ok (true, test_case (codes "Test1") ∷ (pass ∷ [])))
check_file_lem_example = check_file_lem (codes "Test1") (codes "site 1") [] printed refl refl refl
