-- ===== src/Driver/Check/Verdict.antt =====
-- What the check of a test case says where the expected file ends with a newline or is missing.
use rep_crec.Base.{
  ℕ, zero, suc, none, ◌≤◌, ◌<◌, true, false, ◌≡◌, refl, ap, ◌∙◌, inl, inr, some, List, [], ◌∷◌,
  length, Result, ok, ◌>>=◌, Bool-cases, arith,
}
use rep_crec.Instruction.Text.{Text}
use rep_crec.Driver.Check.{
  getline, same_line, Report, compare_lines, check_file, judge, is_empty_line, test_case, pass,
  wrong_line,
}
use rep_crec.Driver.Check.Lines.{
  joined, terminated, is_line, are_lines, none_empty, is_prefix, reading, getline_ended,
}
use rep_crec.Driver.Check.Prefix.{
  same_line_nil, round_both, round_first, round_none, length-append, judge_lem, check_file-joined,
}

-- The loop ends, and the lines that it leaves differ.
abbrev Differs : Result (Text × Text × List Report) → Type 0
Differs r =
    (result : Text) × (output : Text) × (reports : List Report) × (r ≡ ok (result, output, reports))
    × (same_line result output ≡ false)

same_line-empty :
    (l m : Text) → is_empty_line l ≡ false → same_line l m ≡ true → same_line [] m ≡ false
unfolding same_line
same_line-empty [] m full same = absurd cc
same_line-empty (c ∷ l) [] full same = absurd cc
same_line-empty (c ∷ l) (d ∷ m) full same = refl

round-Differs :
    (fuel : ℕ) (l m : Text) (ls ms : List Text) (u v : Text)
    → is_line l ≡ true
    → is_line m ≡ true
    → (same_line l m ≡ true
        → Differs (compare_lines fuel (reading (terminated ls)) (reading (terminated ms)) l m))
    → Differs (
        compare_lines
          (suc fuel)
          (reading (terminated (l ∷ ls)))
          (reading (terminated (m ∷ ms)))
          u
          v)
round-Differs fuel l m ls ms u v h k next =
    let e =
      round_both fuel (reading (terminated (l ∷ ls))) (reading (terminated (m ∷ ms))) u v l m
        (reading (terminated ls)) (reading (terminated ms)) (getline_ended l (terminated ls) u h)
        (getline_ended m (terminated ms) v k) in
    elim (Bool-cases (same_line l m)) [
      | inr other ↦ (l, m, wrong_line l m ∷ [], e ∙ rw other refl, other)
      | inl same ↦
          let (result, output, reports, r, d) = next same in
          (result, output, reports, e ∙ rw same r, d)
    ]

-- The loop over a first file that ends with a newline: after its last line an empty one is read.
compare_lines-Differs :
    (fuel : ℕ) (l : Text) (ls ms : List Text) (u v : Text)
    → length ls < fuel
    → are_lines (l ∷ ls) ≡ true
    → none_empty (l ∷ ls) ≡ true
    → are_lines ms ≡ true
    → Differs
        (compare_lines (suc fuel) (reading (terminated (l ∷ ls))) (reading (terminated ms)) u v)
unfolding getline
compare_lines-Differs zero l ls ms u v lt h ne k = absurd (omega arith)
compare_lines-Differs (suc fuel) l ls [] u v lt h ne k = (
  l,
  [],
  [],
  round_first (suc fuel) (reading (terminated (l ∷ ls))) (reading []) u v l []
      (reading (terminated ls)) (record { rest = []; good = false })
      (getline_ended l (terminated ls) u (ground arith)) refl,
  same_line_nil l (ground arith),
)
compare_lines-Differs (suc fuel) l [] (m ∷ ms) u v lt h ne k =
    round-Differs (suc fuel) l m [] ms u v (ground arith) (ground arith) λ same. (
      [],
      m,
      [],
      round_none fuel (reading []) (reading (terminated ms)) l m []
          (record { rest = []; good = false }) refl,
      same_line-empty l m (ground arith) same,
    )
compare_lines-Differs (suc fuel) l (n ∷ ls) (m ∷ ms) u v lt h ne k =
    round-Differs (suc fuel) l m (n ∷ ls) ms u v (ground arith) (ground arith) λ same.
      compare_lines-Differs fuel n ls ms l m (omega (arith, lt)) (ground arith) (ground arith)
        (ground arith)

length-terminated : (l : Text) (ls : List Text) → length (l ∷ ls) ≤ length (terminated (l ∷ ls))
length-terminated l [] = omega (arith, length-append l (10 ∷ []))
length-terminated l (n ∷ ls) =
    omega (arith, length-append l (10 ∷ terminated (n ∷ ls)), length-terminated n ls)

-- The same with a newline after the last line: it never passes.
check_file-terminated :
    (name l : Text) (ls ms : List Text)
    → are_lines (l ∷ ls) ≡ true
    → none_empty (l ∷ ls) ≡ true
    → are_lines ms ≡ true
    → (reports : List Report) × (check_file name (some (terminated (l ∷ ls))) (some (terminated ms))
        ≡ ok (false, reports))
unfolding check_file
check_file-terminated name l ls ms h ne k =
    let lt = length-terminated l ls in
    let (result, output, reports, r, d) =
      compare_lines-Differs (length (terminated (l ∷ ls))) l ls ms [] [] (omega (arith, lt)) h ne
        k in
    let (reports', j) = judge_lem name result output reports in
    (reports', ap (λ o. o >>= judge name) r ∙ j ∙ ap (λ b. ok (b, reports')) d)

-- What the check of a test case says of an output whose lines are each followed by a newline, where
-- one or more lines are expected and none of these is empty. If the expected file has no newline at
-- its end, the test case counts as right exactly if the expected lines are the first lines of the
-- output, whatever comes after them. If it has one, the test case counts as wrong, also where the two
-- files are the same. If there is no expected file, it counts as right.
pub check_file_lem :
    (name l : Text) (ls ms : List Text)
    → are_lines (l ∷ ls) ≡ true
    → none_empty (l ∷ ls) ≡ true
    → are_lines ms ≡ true
    → (joined_case : (reports : List Report) × (check_file name
            (some (joined (l ∷ ls)))
            (some (terminated ms))
          ≡ ok (is_prefix (l ∷ ls) ms, reports)))
      × (terminated_case : (reports : List Report) × (check_file name
              (some (terminated (l ∷ ls)))
              (some (terminated ms))
            ≡ ok (false, reports)))
      × (check_file name none (some (terminated ms)) ≡ ok (true, test_case name ∷ (pass ∷ [])))
unfolding check_file
check_file_lem name l ls ms h ne k =
    (check_file-joined name (l ∷ ls) ms h ne k, check_file-terminated name l ls ms h ne k, refl)
