-- ===== src/Driver/Check/Total.antt =====
-- The check of the test cases ends, whatever the files hold.
use rep_crec.Base.{
  sym, ◌+◌, Result, ℕ, zero, suc, ◌<◌, ◌≤◌, Bool, true, false, not, ◌||◌, ◌≡◌, refl, ap, ◌∙◌, inl,
  inr, Option, List, [], ◌∷◌, ◌++◌, length, ok, ◌>>=◌, if◌then◌else◌, Bool-cases, arith,
}
use rep_crec.Instruction.Text.{Text}
use rep_crec.Driver.Check.{
  Stream, open_file, take_line, getline, same_line, Report, compare_lines, check_file, check_files,
  execute_test_case_check, judge, is_empty_line, wrong_line, score, test_case, pass,
}

length-take_line : (s : Text) → length (take_line s).2 ≤ length s
unfolding take_line
length-take_line [] = omega arith
length-take_line (c ∷ s) = ground (arith, length-take_line s)

-- A read that succeeds takes something.
take_line_shorter :
    (s : Text)
    → ((take_line s).1 || not (is_empty_line (take_line s).0)) ≡ true
    → length (take_line s).2 < length s
unfolding take_line
take_line_shorter [] h = absurd cc
take_line_shorter (c ∷ s) h = ground (arith, length-take_line s)

pub getline_shorter :
    (f : Stream) (u : Text) → (getline f u).0 ≡ true → length (getline f u).2.rest < length f.rest
unfolding getline
getline_shorter f u h = elim (Bool-cases f.good) [
  | inl good ↦ ground (arith, take_line_shorter f.rest)
  | inr bad ↦ absurd (ground arith)
]

-- The test cases that a report names, in order.
abbrev pub checked : List Report → List Text
checked [] = []
checked (test_case name ∷ rs) = name ∷ checked rs
checked (wrong_line a b ∷ rs) = checked rs
checked (pass ∷ rs) = checked rs
checked (score right total ∷ rs) = checked rs

-- How many a report says to pass.
abbrev pub passes : List Report → ℕ
passes [] = 0
passes (pass ∷ rs) = suc (passes rs)
passes (test_case name ∷ rs) = passes rs
passes (wrong_line a b ∷ rs) = passes rs
passes (score right total ∷ rs) = passes rs

append_counts :
    (a b : List Report)
    → (checked (a ++ b) ≡ checked a ++ checked b) × (passes (a ++ b) ≡ passes a + passes b)
append_counts [] b = (refl, omega arith)
append_counts (test_case name ∷ a) b = let (c, p) = append_counts a b in (ap (λ l. name ∷ l) c, p)
append_counts (wrong_line x y ∷ a) b = append_counts a b
append_counts (pass ∷ a) b = let (c, p) = append_counts a b in (c, omega (arith, p))
append_counts (score right total ∷ a) b = append_counts a b

pub append_assoc : (a b c : List Report) → (a ++ b) ++ c ≡ a ++ (b ++ c)
append_assoc [] b c = refl
append_assoc (x ∷ a) b c = ap (λ y. x ∷ y) (append_assoc a b c)

compare_lines_total :
    (fuel : ℕ) (f g : Stream) (u v : Text)
    → length f.rest < fuel
    → (r : Text × Text × List Report) × (compare_lines fuel f g u v ≡ ok r)
      × (checked r.2 ≡ [])
      × (passes r.2 ≡ 0)
unfolding compare_lines
compare_lines_total zero f g u v lt = absurd (omega arith)
compare_lines_total (suc fuel) f g u v lt =
    let (more, a, f') = getline f u in
    let (more', b, g') = getline g v in
    elim (Bool-cases more) [
      | inr no_more ↦ ((a, v, []), ground arith, refl, refl)
      | inl yes_more ↦ elim (Bool-cases more') [
        | inr no_more ↦ ((a, b, []), ground arith, refl, refl)
        | inl yes_more' ↦ elim (Bool-cases (same_line a b)) [
          | inr other ↦ ((a, b, wrong_line a b ∷ []), ground arith, refl, refl)
          | inl same ↦
              let (r, e, c, n) =
                compare_lines_total fuel f' g' a b
                  (omega (arith, getline_shorter f u yes_more, lt)) in
              (r, ground arith, c, n)
        ]
      ]
    ]

-- The report of one test case names it, and says that it passes if it is counted.
judge_total :
    (name : Text) (r : Text × Text × List Report)
    → checked r.2 ≡ []
    → passes r.2 ≡ 0
    → (passed : Bool) × (reports : List Report) × (judge name r ≡ ok (passed, reports))
      × (checked reports ≡ name ∷ [])
      × (passes reports ≡ (if passed then 1 else 0))
unfolding judge
judge_total name (result, output, reports) c p = elim (Bool-cases (same_line result output)) [
  | inl same ↦
      let (c', p') = append_counts reports (pass ∷ []) in
      (
        true,
        test_case name ∷ (reports ++ (pass ∷ [])),
        ground arith,
        ap (λ l. name ∷ l) (c' ∙ ap (λ l. l ++ []) c),
        omega (arith, p', p),
      )
  | inr other ↦ (false, test_case name ∷ reports, ground arith, ap (λ l. name ∷ l) c, p)
]

check_file_total :
    (name : Text) (result_file output_file : Option Text)
    → (passed : Bool) × (reports : List Report) × (check_file name result_file output_file
        ≡ ok (passed, reports))
      × (checked reports ≡ name ∷ [])
      × (passes reports ≡ (if passed then 1 else 0))
unfolding check_file
check_file_total name result_file output_file =
    let f = open_file result_file in
    let (r, e, c, n) =
      compare_lines_total (suc (length f.rest)) f (open_file output_file) [] [] (omega arith) in
    let (passed, reports, j, c', n') = judge_total name r c n in
    (passed, reports, ap (λ o. o >>= judge name) e ∙ j, c', n')

abbrev pub names : List (Text × Option Text × Option Text) → List Text
names [] = []
names ((name, result_file, output_file) ∷ files) = name ∷ names files

check_files_total :
    (files : List (Text × Option Text × Option Text)) (right total : ℕ)
    → (reports : List Report) × (check_files files right total
        ≡ ok (reports ++ (score (right + passes reports) total ∷ [])))
      × (checked reports ≡ names files)
unfolding check_files
check_files_total [] right total = ([], ap (λ n. ok (score n total ∷ [])) (omega arith), refl)
check_files_total ((name, result_file, output_file) ∷ files) right total =
    let (passed, reports, e, c, p) = check_file_total name result_file output_file in
    let right' = if passed then suc right else right in
    let (later, k, cs) = check_files_total files right' total in
    let (c', p') = append_counts reports later in
    let counted : right' + passes later ≡ right + passes (reports ++ later) =
      elim (Bool-cases passed) [
        | inl yes_passed ↦ ground (arith, p, p')
        | inr no_passed ↦ ground (arith, p, p')
      ] in
    (
      reports ++ later,
      ap (λ r. r >>= next right total files) e
          ∙ ap (λ r. r >>= λ l. ok (reports ++ l)) k
          ∙ ap ok (
              sym (append_assoc reports later (score (right' + passes later) total ∷ []))
              ∙ ap (λ n. (reports ++ later) ++ (score n total ∷ [])) counted),
      c' ∙ ap (λ l. l ++ checked later) c ∙ ap (λ l. name ∷ l) cs,
    )
  where
    next :
        ℕ → ℕ → List (Text × Option Text × Option Text) → Bool × List Report → Result (List Report)
    next right total files (passed, reports) =
        check_files files (if passed then suc right else right) total >>= λ later.
        ok (reports ++ later)

-- The check of the test cases ends, whatever the files hold and whether or not they are there: its
-- report names the test cases in order, and the score at its end is the number of those that it says
-- to pass, of all of them.
pub execute_test_case_check_total :
    (files : List (Text × Option Text × Option Text))
    → (reports : List Report) × (execute_test_case_check files
        ≡ ok (reports ++ (score (passes reports) (length files) ∷ [])))
      × (checked reports ≡ names files)
unfolding execute_test_case_check
execute_test_case_check_total files =
    let (reports, e, c) = check_files_total files 0 (length files) in
    (reports, e ∙ ap (λ n. ok (reports ++ (score n (length files) ∷ []))) (omega arith), c)
