-- ===== src/Site/Print.antt =====
-- repcrec/site: the text of a dumped row, as `printf` or the streams write it.
use rep_crec.Base.{
  ℕ, zero, suc, ◌-◌, Bool, Option, none, some, List, [], ◌∷◌, ◌++◌, ℤ, length, if◌then◌else◌,
}
use rep_crec.Instruction.Text.{Text, codes}
use rep_crec.Instruction.Print.{print_number}

abbrev pub spaces : ℕ → Text
spaces zero = []
spaces (suc n) = b' ' ∷ spaces n

-- `%<width>d`, or a number after `std::setw(width)`
unfoldable pub padded : ℕ → ℤ → Text
unfolding print_number
padded width z = spaces (width - length (print_number z)) ++ print_number z

-- A copy that is shown.
unfoldable pub shown_cell : ℤ × ℤ → Text
unfolding padded
shown_cell (id, value) = b'x' ∷ (padded 2 id ++ (b':' ∷ padded 5 value))

-- After the last copy that is shown comes a newline, and after every other cell a tab.
unfoldable pub print_cells : List (Option (ℤ × ℤ)) → Text
unfolding shown_cell
print_cells [] = []
print_cells (none ∷ cells) = spaces 9 ++ (9 ∷ print_cells cells)
print_cells (some cell ∷ []) = shown_cell cell ++ (10 ∷ [])
print_cells (some cell ∷ c ∷ cells) = shown_cell cell ++ (9 ∷ print_cells (c ∷ cells))

-- A row starts with one more space on the console than in a file.
unfoldable pub print_row : Bool → ℤ × List (Option (ℤ × ℤ)) → Text
unfolding padded print_cells
print_row use_file (id, cells) =
    (if use_file then codes "site" else codes "site ")
    ++ (padded 2 id ++ (codes " - " ++ print_cells cells))
