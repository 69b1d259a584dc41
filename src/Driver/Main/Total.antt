-- ===== src/Driver/Main/Total.antt =====
-- The run of all inputs.
use rep_crec.Base.{
  Bool, true, false, ◌≡◌, List, [], ◌∷◌, ℕ, ◌||◌, some, Result, ok, err, invalid_argument,
  out_of_range, null_pointer, before_begin, empty_set, invalid_iterator, out_of_bounds, out_of_fuel,
  if◌then◌else◌,
}
use rep_crec.Instruction.{Instruction}
use rep_crec.Instruction.Text.{Text}
use rep_crec.TransactionManager.{TransactionManager}
use rep_crec.Driver.Check.{same_line}
use rep_crec.Driver.Check.Total.{names}
use rep_crec.Driver.Main.{Files, Console, failed, rule, start, report, run_file, written}

-- The inputs that are listed.
abbrev pub inputs : List (Text × Bool) → List Text
inputs [] = []
inputs ((name, true) ∷ entries) = inputs entries
inputs ((name, false) ∷ entries) = name ∷ inputs entries

-- The inputs whose processes were started, in order.
abbrev pub started : List Console → List Text
started [] = []
started (start name ∷ cs) = name ∷ started cs
started (rule ∷ cs) = started cs
started (failed name ∷ cs) = started cs
started (report r ∷ cs) = started cs

-- Whether the text is one of the names.
abbrev pub is_one_of : Text → List Text → Bool
is_one_of n [] = false
is_one_of n (name ∷ names) = is_one_of n names || same_line n name

-- A run ends, with a state or with an exception.
abbrev pub Ends : Result TransactionManager → Type 0
Ends (ok tm) = Unit {0}
Ends (err invalid_argument) = Unit {0}
Ends (err out_of_range) = Unit {0}
Ends (err null_pointer) = ⊥
Ends (err before_begin) = ⊥
Ends (err empty_set) = ⊥
Ends (err invalid_iterator) = ⊥
Ends (err out_of_bounds) = ⊥
Ends (err out_of_fuel) = ⊥

-- What a process leaves in its file.
abbrev pub left_in_file : Text → Result TransactionManager → Text
left_in_file lost (ok tm) = written tm.log
left_in_file lost (err e) = lost

module _ (memory : Instruction) (fuel : ℕ) (lost : Text) where
  -- The runs of all the inputs end.
  abbrev pub AllEnd : List Text → Files → Type 0
  AllEnd [] files = Unit {0}
  AllEnd (name ∷ names) files = Ends (run_file memory fuel name files) × AllEnd names files

  abbrev left_by : Text → Files → Text
  left_by name files = left_in_file lost (run_file memory fuel name files)

  -- After the runs of the inputs, each has been started, in order, and its file has what it left.
  abbrev pub Ran : List Text → Files → List Console → Files → Type 0
  Ran names files printed files' =
      (started printed ≡ names)
      × ((n : Text)
          → files'.output n
            ≡ (if is_one_of n names then some (left_by n files) else files.output n))
