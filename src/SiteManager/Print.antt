-- ===== src/SiteManager/Print.antt =====
-- repcrec/site_manager: the text of a dump.
use rep_crec.Base.{Bool, Option, List, [], ◌∷◌, ◌++◌, ℤ}
use rep_crec.Instruction.Text.{Text, codes}
use rep_crec.Site.Print.{print_row}

abbrev pub rule : Text
rule = codes "====================================================" ++ (10 ∷ [])

unfoldable pub print_rows : Bool → List (ℤ × List (Option (ℤ × ℤ))) → Text
unfolding print_row
print_rows use_file [] = []
print_rows use_file (row ∷ rows) = print_row use_file row ++ print_rows use_file rows

unfoldable pub print_dump : Bool → List (ℤ × List (Option (ℤ × ℤ))) → Text
unfolding print_rows
print_dump use_file rows = rule ++ (print_rows use_file rows ++ rule)
