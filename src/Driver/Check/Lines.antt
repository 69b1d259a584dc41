-- ===== src/Driver/Check/Lines.antt =====
-- Texts made of lines, and how they are read.
use rep_crec.Base.{
  Bool, true, false, not, ◌&&◌, ◌||◌, ◌==◌, ◌≡◌, refl, ap, List, [], ◌∷◌, ◌++◌, arith,
}
use rep_crec.Instruction.Text.{Text}
use rep_crec.Driver.Check.{Stream, take_line, getline, same_line, is_empty_line}

-- Lines with a newline between each two.
abbrev pub joined : List Text → Text
joined [] = []
joined (l ∷ []) = l
joined (l ∷ m ∷ ls) = l ++ (10 ∷ joined (m ∷ ls))

-- Lines with a newline after each.
abbrev pub terminated : List Text → Text
terminated [] = []
terminated (l ∷ ls) = l ++ (10 ∷ terminated ls)

abbrev pub is_line : Text → Bool
is_line [] = true
is_line (c ∷ s) = not (c == 10) && is_line s

abbrev pub are_lines : List Text → Bool
are_lines [] = true
are_lines (l ∷ ls) = is_line l && are_lines ls

abbrev pub none_empty : List Text → Bool
none_empty [] = true
none_empty (l ∷ ls) = not (is_empty_line l) && none_empty ls

-- Whether the lines are the first of the others.
unfoldable pub is_prefix : List Text → List Text → Bool
unfolding same_line
is_prefix [] ms = true
is_prefix (l ∷ ls) [] = false
is_prefix (l ∷ ls) (m ∷ ms) = same_line l m && is_prefix ls ms

take_line_ended :
    (l rest : Text) → is_line l ≡ true → take_line (l ++ (10 ∷ rest)) ≡ (l, true, rest)
unfolding take_line
take_line_ended [] rest h = refl
take_line_ended (c ∷ l) rest h = ground (arith, take_line_ended l rest)

take_line_last : (l : Text) → is_line l ≡ true → take_line l ≡ (l, false, [])
unfolding take_line
take_line_last [] h = refl
take_line_last (c ∷ l) h = ground (arith, take_line_last l)

abbrev pub reading : Text → Stream
reading s = record { rest = s; good = true }

abbrev taken : Text × Bool × Text → Bool × Text × Stream
taken (text, ended, left) =
    (ended || not (is_empty_line text), text, record { rest = left; good = ended })

pub getline_ended :
    (l rest line : Text)
    → is_line l ≡ true
    → getline (reading (l ++ (10 ∷ rest))) line ≡ (true, l, reading rest)
unfolding getline
getline_ended l rest line h = ap taken (take_line_ended l rest h)

pub getline_last :
    (l line : Text)
    → is_line l ≡ true
    → getline (reading l) line ≡ (not (is_empty_line l), l, record { rest = []; good = false })
unfolding getline
getline_last l line h = ap taken (take_line_last l h)
