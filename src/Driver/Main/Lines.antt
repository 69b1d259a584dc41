-- ===== src/Driver/Main/Lines.antt =====
-- The input that a run reads, and that reading it ends.
use rep_crec.Base.{
  Bool, not, ◌⊎◌, inl, inr, ℕ, zero, suc, ◌<◌, true, false, ◌≡◌, refl, ◌∙◌, inl, inr, some, List,
  [], ◌∷◌, length, ok, ◌>>=◌, Bool-cases, arith,
}
use rep_crec.Instruction.{Instruction}
use rep_crec.Instruction.Text.{Text}
use rep_crec.TransactionManager.{initial}
use rep_crec.Driver.{execute_advanced_database}
use rep_crec.Driver.Check.{Stream, getline, is_empty_line}
use rep_crec.Driver.Check.Lines.{
  joined, terminated, are_lines, reading, getline_ended, getline_last,
}
use rep_crec.Driver.Check.Total.{getline_shorter}
use rep_crec.Driver.Check.Prefix.{length-append}
use rep_crec.Driver.Main.{Files, read_lines, run_file}

module _ (fuel : ℕ) (f g : Stream) (u line : Text) where
  read_more :
      {lines : List Text}
      → getline f u ≡ (true, line, g)
      → read_lines fuel g line ≡ ok lines
      → read_lines (suc fuel) f u ≡ ok (line ∷ lines)
  unfolding read_lines
  read_more e r = ground arith

  read_none : getline f u ≡ (false, line, g) → read_lines (suc fuel) f u ≡ ok []
  unfolding read_lines
  read_none e = ground arith

-- Lines that all end with a newline.
read_lines-terminated :
    (fuel : ℕ) (ls : List Text) (u : Text)
    → length ls < fuel
    → are_lines ls ≡ true
    → read_lines fuel (reading (terminated ls)) u ≡ ok ls
unfolding getline
read_lines-terminated zero ls u lt h = absurd (omega arith)
read_lines-terminated (suc fuel) [] u lt h =
    read_none fuel (reading []) (record { rest = []; good = false }) u [] refl
read_lines-terminated (suc fuel) (l ∷ ls) u lt h =
    read_more fuel (reading (terminated (l ∷ ls))) (reading (terminated ls)) u l
      (getline_ended l (terminated ls) u (ground arith))
      (read_lines-terminated fuel ls l (omega (arith, lt)) (ground arith))

abbrev pub last_full : List Text → Bool
last_full [] = false
last_full (l ∷ []) = not (is_empty_line l)
last_full (l ∷ m ∷ ls) = last_full (m ∷ ls)

-- Lines of which the last has no newline, and is not empty.
read_lines-joined :
    (fuel : ℕ) (ls : List Text) (u : Text)
    → length ls < fuel
    → are_lines ls ≡ true
    → last_full ls ≡ true
    → read_lines fuel (reading (joined ls)) u ≡ ok ls
unfolding getline
read_lines-joined fuel [] u lt h full = absurd cc
read_lines-joined zero (l ∷ ls) u lt h full = absurd (omega arith)
read_lines-joined (suc zero) (l ∷ ls) u lt h full = absurd (omega arith)
read_lines-joined (suc (suc fuel)) (l ∷ []) u lt h full =
    read_more (suc fuel) (reading l) (record { rest = []; good = false }) u l
      (getline_last l u (ground arith) ∙ ground arith)
      (read_none fuel (record { rest = []; good = false }) (record { rest = []; good = false }) l l
        refl)
read_lines-joined (suc (suc fuel)) (l ∷ m ∷ ls) u lt h full =
    read_more (suc fuel) (reading (joined (l ∷ m ∷ ls))) (reading (joined (m ∷ ls))) u l
      (getline_ended l (joined (m ∷ ls)) u (ground arith))
      (read_lines-joined (suc fuel) (m ∷ ls) l (omega (arith, lt)) (ground arith) full)

length-joined : (ls : List Text) → last_full ls ≡ true → length ls < suc (length (joined ls))
length-joined [] h = absurd cc
length-joined ([] ∷ []) h = absurd cc
length-joined ((c ∷ l) ∷ []) h = omega arith
length-joined (l ∷ m ∷ ls) h =
    omega (arith, length-append l (10 ∷ joined (m ∷ ls)), length-joined (m ∷ ls) h)

-- Any file is read to its end.
read_lines_total :
    (fuel : ℕ) (f : Stream) (u : Text)
    → length f.rest < fuel
    → (lines : List Text) × (read_lines fuel f u ≡ ok lines)
unfolding read_lines
read_lines_total zero f u lt = absurd (omega arith)
read_lines_total (suc fuel) f u lt =
    let (more, line, g) = getline f u in
    elim (Bool-cases more) [
      | inr no_more ↦ ([], ground arith)
      | inl yes_more ↦
          let (lines, e) =
            read_lines_total fuel g line (omega (arith, getline_shorter f u yes_more, lt)) in
          (line ∷ lines, ground arith)
    ]

more_lines : (l : Text) (ls : List Text) → length ls < length (terminated (l ∷ ls))
more_lines l [] = omega (arith, length-append l (10 ∷ []))
more_lines l (m ∷ ls) = omega (arith, length-append l (10 ∷ terminated (m ∷ ls)), more_lines m ls)

length-terminated : (ls : List Text) → length ls < suc (length (terminated ls))
length-terminated [] = omega arith
length-terminated (l ∷ ls) = omega (arith, more_lines l ls)

-- A file of these lines: each is followed by a newline, or only the last is not, and is not empty.
abbrev pub IsFileOf : List Text → Text → Type 0
IsFileOf ls text = (text ≡ terminated ls) ⊎ ((text ≡ joined ls) × (last_full ls ≡ true))

read_lines-file :
    (ls : List Text) (text : Text)
    → are_lines ls ≡ true
    → IsFileOf ls text
    → read_lines (suc (length text)) (reading text) [] ≡ ok ls
read_lines-file ls text h (inl e) =
    rw e (read_lines-terminated (suc (length (terminated ls))) ls [] (length-terminated ls) h)
read_lines-file ls text h (inr (e, full)) =
    rw e (read_lines-joined (suc (length (joined ls))) ls [] (length-joined ls full) h full)

module _ (memory : Instruction) (fuel : ℕ) (name : Text) (files : Files) where
  -- A run of a file is the run of its lines from the first state.
  pub run_file-lines :
      (ls : List Text) (text : Text)
      → files.input name ≡ some text
      → IsFileOf ls text
      → are_lines ls ≡ true
      → run_file memory fuel name files
        ≡ (execute_advanced_database memory fuel ls initial >>= λ (_, tm). ok tm)
  unfolding run_file
  run_file-lines ls text e f h = let r = read_lines-file ls text h f in rw (e, r) refl
