-- ===== src/Driver/Check/Prefix.antt =====
-- When a test case is counted as right.
use rep_crec.Base.{
  ℕ, zero, suc, ◌+◌, ◌<◌, true, false, ◌≡◌, refl, ap, sym, ◌∙◌, inl, inr, some, List, [], ◌∷◌, ◌++◌,
  length, Result, ok, ◌>>=◌, if◌then◌else◌, Bool-cases, arith,
}
use rep_crec.Instruction.Text.{Text}
use rep_crec.Driver.Check.{
  Stream, getline, same_line, Report, compare_lines, check_file, judge, is_empty_line, test_case,
  pass, wrong_line,
}
use rep_crec.Driver.Check.Lines.{
  joined, terminated, is_line, are_lines, none_empty, is_prefix, reading, getline_ended,
  getline_last,
}

pub same_line_nil : (l : Text) → is_empty_line l ≡ false → same_line l [] ≡ false
unfolding same_line
same_line_nil [] h = cc
same_line_nil (c ∷ s) h = refl

module _ (fuel : ℕ) (f g : Stream) (u v : Text) where
  -- One round of the loop, by what the two reads give.
  pub round_both :
      (a b : Text) (f' g' : Stream)
      → getline f u ≡ (true, a, f')
      → getline g v ≡ (true, b, g')
      → compare_lines (suc fuel) f g u v
        ≡ (if same_line a b then compare_lines fuel f' g' a b else ok (a, b, wrong_line a b ∷ []))
  unfolding compare_lines
  round_both a b f' g' p q = ground arith

  pub round_first :
      (a b : Text) (f' g' : Stream)
      → getline f u ≡ (true, a, f')
      → getline g v ≡ (false, b, g')
      → compare_lines (suc fuel) f g u v ≡ ok (a, b, [])
  unfolding compare_lines
  round_first a b f' g' p q = ground arith

  pub round_none :
      (a : Text) (f' : Stream)
      → getline f u ≡ (false, a, f')
      → compare_lines (suc fuel) f g u v ≡ ok (a, v, [])
  unfolding compare_lines
  round_none a f' p = ground arith

-- The loop ends, and the lines that it leaves agree exactly if the first file is a beginning of the
-- second.
abbrev Agrees : List Text → List Text → Result (Text × Text × List Report) → Type 0
Agrees ls ms r =
    (result : Text) × (output : Text) × (reports : List Report) × (r ≡ ok (result, output, reports))
    × (same_line result output ≡ is_prefix ls ms)

unequal :
    (l m : Text) (ls ms : List Text) → same_line l m ≡ false → is_prefix (l ∷ ls) (m ∷ ms) ≡ false
unfolding is_prefix
unequal l m ls ms h = ground arith

equal :
    (l m : Text) (ls ms : List Text)
    → same_line l m ≡ true
    → is_prefix (l ∷ ls) (m ∷ ms) ≡ is_prefix ls ms
unfolding is_prefix
equal l m ls ms h = ground arith

module _ (l : Text) (here : is_line l ≡ true) (full : is_empty_line l ≡ false) where
  -- The other file has ended.
  compare_short :
      (fuel : ℕ) (f : Stream) (g : Stream) (u v : Text) (ls : List Text)
      → getline f u ≡ (true, l, g)
      → Agrees (l ∷ ls) [] (compare_lines (suc fuel) f (reading []) u v)
  unfolding getline is_prefix
  compare_short fuel f g u v ls p = (
    l,
    [],
    [],
    round_first fuel f (reading []) u v l [] g (record { rest = []; good = false }) p refl,
    same_line_nil l full,
  )

  -- The other file has a line, and the rest agrees where the two lines are the same.
  compare_round :
      (fuel : ℕ) (f : Stream) (g : Stream) (u v m : Text) (ls ms : List Text)
      → getline f u ≡ (true, l, g)
      → is_line m ≡ true
      → (same_line l m ≡ true → Agrees ls ms (compare_lines fuel g (reading (terminated ms)) l m))
      → Agrees (l ∷ ls) (m ∷ ms) (compare_lines (suc fuel) f (reading (terminated (m ∷ ms))) u v)
  compare_round fuel f g u v m ls ms p k next =
      let q = getline_ended m (terminated ms) v k in
      let e =
        round_both fuel f (reading (terminated (m ∷ ms))) u v l m g (reading (terminated ms)) p q in
      elim (Bool-cases (same_line l m)) [
        | inl same ↦
            let (result, output, reports, r, a) = next same in
            (result, output, reports, e ∙ rw same r, a ∙ sym (equal l m ls ms same))
        | inr other ↦
            (l, m, wrong_line l m ∷ [], e ∙ rw other refl, other ∙ sym (unequal l m ls ms other))
      ]

-- The loop over a first file of one line or more.
compare_lines-Agrees :
    (fuel : ℕ) (l : Text) (ls ms : List Text) (u v : Text)
    → length ls < fuel
    → are_lines (l ∷ ls) ≡ true
    → none_empty (l ∷ ls) ≡ true
    → are_lines ms ≡ true
    → Agrees
        (l ∷ ls)
        ms
        (compare_lines (suc fuel) (reading (joined (l ∷ ls))) (reading (terminated ms)) u v)
unfolding getline is_prefix
compare_lines-Agrees zero l ls ms u v lt h ne k = absurd (omega arith)
compare_lines-Agrees (suc fuel) l [] [] u v lt h ne k =
    compare_short l (ground arith) (ground arith) (suc fuel) (reading l)
      (record { rest = []; good = false }) u v [] (getline_last l u (ground arith) ∙ ground arith)
compare_lines-Agrees (suc fuel) l [] (m ∷ ms) u v lt h ne k =
    compare_round l (ground arith) (ground arith) (suc fuel) (reading l)
      (record { rest = []; good = false }) u v m [] ms
      (getline_last l u (ground arith) ∙ ground arith) (ground arith)
      λ same. (
        l,
        m,
        [],
        round_none fuel (record { rest = []; good = false }) (reading (terminated ms)) l m l
            (record { rest = []; good = false }) refl,
        same,
      )
compare_lines-Agrees (suc fuel) l (n ∷ ls) [] u v lt h ne k =
    compare_short l (ground arith) (ground arith) (suc fuel) (reading (joined (l ∷ n ∷ ls)))
      (reading (joined (n ∷ ls))) u v (n ∷ ls) (getline_ended l (joined (n ∷ ls)) u (ground arith))
compare_lines-Agrees (suc fuel) l (n ∷ ls) (m ∷ ms) u v lt h ne k =
    compare_round l (ground arith) (ground arith) (suc fuel) (reading (joined (l ∷ n ∷ ls)))
      (reading (joined (n ∷ ls))) u v m (n ∷ ls) ms
      (getline_ended l (joined (n ∷ ls)) u (ground arith)) (ground arith)
      λ same.
        compare_lines-Agrees fuel n ls ms l m (omega (arith, lt)) (ground arith) (ground arith)
          (ground arith)

pub length-append : (a b : Text) → length (a ++ b) ≡ length a + length b
length-append [] b = omega arith
length-append (c ∷ a) b = omega (arith, length-append a b)

-- There are no more lines than characters.
length-joined :
    (l : Text) (ls : List Text) → none_empty (l ∷ ls) ≡ true → length ls < length (joined (l ∷ ls))
length-joined [] ls h = absurd cc
length-joined (c ∷ l) [] h = omega arith
length-joined (c ∷ l) (n ∷ ls) h =
    omega (arith, length-append (c ∷ l) (10 ∷ joined (n ∷ ls)), length-joined n ls (ground arith))

pub judge_lem :
    (name result output : Text) (reports : List Report)
    → (reports' : List Report) × (judge name (result, output, reports)
        ≡ ok (same_line result output, reports'))
unfolding judge
judge_lem name result output reports = elim (Bool-cases (same_line result output)) [
  | inl same ↦ (test_case name ∷ (reports ++ (pass ∷ [])), ground arith)
  | inr other ↦ (test_case name ∷ reports, ground arith)
]

-- A test case whose expected lines, none of them empty, stand in a file whose last line has no newline.
pub check_file-joined :
    (name : Text) (ls ms : List Text)
    → are_lines ls ≡ true
    → none_empty ls ≡ true
    → are_lines ms ≡ true
    → (reports : List Report) × (check_file name (some (joined ls)) (some (terminated ms))
        ≡ ok (is_prefix ls ms, reports))
unfolding check_file is_prefix
check_file-joined name [] ms h ne k = (test_case name ∷ (pass ∷ []), refl)
check_file-joined name (l ∷ ls) ms h ne k =
    let lt = length-joined l ls ne in
    let (result, output, reports, r, a) =
      compare_lines-Agrees (length (joined (l ∷ ls))) l ls ms [] [] lt h ne k in
    let (reports', j) = judge_lem name result output reports in
    (reports', ap (λ o. o >>= judge name) r ∙ j ∙ ap (λ b. ok (b, reports')) a)
