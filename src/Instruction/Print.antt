-- ===== src/Instruction/Print.antt =====
-- Numbers and instructions as text, and that the parser reads them back.
pub mod Number
pub mod RoundTrip
use rep_crec.Base.{
  ℕ, zero, suc, ◌+◌, ◌/◌, ◌%◌, List, [], ◌∷◌, ◌++◌, ltb, ℤ, pos, negsuc, if◌then◌else◌,
}
use rep_crec.Instruction.Text.{Text, codes}

-- The decimal digits of a number, in front of a text.
unfoldable pub digits_onto : ℕ → ℕ → Text → Text
digits_onto zero n tail = (48 + n % 10) ∷ tail
digits_onto (suc fuel) n tail =
    let rest = digits_onto fuel (n / 10) ((48 + n % 10) ∷ tail) in
    if ltb n 10 then (48 + n % 10) ∷ tail else rest

unfoldable pub digits : ℕ → Text
unfolding digits_onto
digits n = digits_onto n n []

unfoldable pub print_number : ℤ → Text
unfolding digits
print_number (pos n) = digits n
print_number (negsuc n) = b'-' ∷ digits (suc n)

-- `W(T<t>,x<x>,<v>)`
unfoldable pub print_write : ℕ → ℕ → ℤ → Text
unfolding print_number
print_write t x v =
    codes "W(T"
    ++ (digits t ++ (codes ",x" ++ (digits x ++ (codes "," ++ (print_number v ++ codes ")")))))

-- `R(T<t>,x<x>)`
unfoldable pub print_read : ℕ → ℕ → Text
unfolding digits
print_read t x = codes "R(T" ++ (digits t ++ (codes ",x" ++ (digits x ++ codes ")")))
