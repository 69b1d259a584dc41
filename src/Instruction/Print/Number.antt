-- ===== src/Instruction/Print/Number.antt =====
-- `std::stoi` reads back a printed number.
use rep_crec.Base.{
  length, ℕ, zero, suc, ◌+◌, ◌*◌, ◌/◌, ◌%◌, ◌^◌, ◌≤◌, ◌<◌, Bool, true, not, ◌&&◌, ◌≡◌, refl, ap,
  ◌∙◌, inl, inr, [], ◌∷◌, ltb, ◌==◌, ℤ, pos, negsuc, arith, ok, Bool-cases,
}
use rep_crec.Instruction.Text.{
  Text, is_digit, is_space, skip_spaces, read_digits, first_is_digit, natural, positive, negative,
  signed, stoi,
}
use rep_crec.Instruction.Print.{digits_onto, digits, print_number}

digit-is_digit : (n : ℕ) → is_digit (48 + n % 10) ≡ true
unfolding is_digit
digit-is_digit n = ground arith

read_digits-step :
    (n k : ℕ) (tail : Text)
    → read_digits n ((48 + k % 10) ∷ tail) ≡ read_digits (n * 10 + k % 10) tail
unfolding read_digits
read_digits-step n k tail = ground (arith, digit-is_digit k)

-- Reading a number that is printed in front of a text goes on with its value.
read_digits-digits_onto :
    (fuel n : ℕ) (tail : Text)
    → n ≤ fuel
    → read_digits 0 (digits_onto fuel n tail) ≡ read_digits n tail
unfolding digits_onto
read_digits-digits_onto zero n tail le = ground (arith, read_digits-step 0 n tail)
read_digits-digits_onto (suc fuel) n tail le = elim (Bool-cases (ltb n 10)) [
  | inl lt ↦ ground (arith, read_digits-step 0 n tail)
  | inr ge ↦
      let p : n / 10 * 10 + n % 10 ≡ n = omega arith in
      ground (
        arith,
        read_digits-digits_onto fuel (n / 10) ((48 + n % 10) ∷ tail),
        read_digits-step (n / 10) n tail,
      )
]

first-digits_onto : (fuel n : ℕ) (tail : Text) → first_is_digit (digits_onto fuel n tail) ≡ true
unfolding digits_onto is_digit
first-digits_onto zero n tail = digit-is_digit n
first-digits_onto (suc fuel) n tail =
    ground (arith, digit-is_digit n, first-digits_onto fuel (n / 10) ((48 + n % 10) ∷ tail))

-- No bracket and no comma.
abbrev pub is_plain : Text → Bool
is_plain [] = true
is_plain (c ∷ s) = (not (c == b')') && not (c == b',')) && is_plain s

plain-digits_onto :
    (fuel n : ℕ) (tail : Text) → is_plain tail ≡ true → is_plain (digits_onto fuel n tail) ≡ true
unfolding digits_onto
plain-digits_onto zero n tail h = ground arith
plain-digits_onto (suc fuel) n tail h =
    ground (arith, plain-digits_onto fuel (n / 10) ((48 + n % 10) ∷ tail))

skip_spaces-digit : (s : Text) → first_is_digit s ≡ true → skip_spaces s ≡ s
unfolding skip_spaces is_space is_digit
skip_spaces-digit [] h = refl
skip_spaces-digit (c ∷ s) h = ground arith

signed-digit : (s : Text) → first_is_digit s ≡ true → signed s ≡ positive s
unfolding signed is_digit
signed-digit [] h = cc
signed-digit (c ∷ s) h = ground arith

-- A value that an `int` of 32 bits holds.
abbrev pub IsInt : ℤ → Type 0
IsInt (pos n) = n < 2 ^ 31
IsInt (negsuc n) = n < 2 ^ 31

natural-digits : (n : ℕ) → natural (digits n) ≡ ok n
unfolding natural digits read_digits
natural-digits n =
    ground (arith, first-digits_onto n n [], read_digits-digits_onto n n [] (omega arith))

pub plain-digits : (n : ℕ) → is_plain (digits n) ≡ true
unfolding digits
plain-digits n = plain-digits_onto n n [] refl

pub plain-print_number : (z : ℤ) → is_plain (print_number z) ≡ true
unfolding print_number
plain-print_number (pos n) = plain-digits n
plain-print_number (negsuc n) = plain-digits (suc n)

first-digits : (n : ℕ) → first_is_digit (digits n) ≡ true
unfolding digits
first-digits n = first-digits_onto n n []

stoi-digits : (n : ℕ) → n < 2 ^ 31 → stoi (digits n) ≡ ok (pos n)
unfolding stoi positive
stoi-digits n lt =
    ap signed (skip_spaces-digit (digits n) (first-digits n))
    ∙ signed-digit (digits n) (first-digits n)
    ∙ ground (arith, natural-digits n)

stoi-minus : (n : ℕ) → n < 2 ^ 31 → stoi (b'-' ∷ digits (suc n)) ≡ ok (negsuc n)
unfolding stoi signed skip_spaces is_space negative
stoi-minus n h = ground (arith, natural-digits (suc n))

-- The number that is read from a printed `int` is that `int`.
pub stoi-print_number : (z : ℤ) → IsInt z → stoi (print_number z) ≡ ok z
unfolding print_number
stoi-print_number (pos n) h = stoi-digits n h
stoi-print_number (negsuc n) h = stoi-minus n h

length-digits_onto :
    (fuel n : ℕ) (tail : Text) → length (digits_onto fuel n tail) ≤ suc fuel + length tail
unfolding digits_onto
length-digits_onto zero n tail = omega arith
length-digits_onto (suc fuel) n tail =
    ground (arith, length-digits_onto fuel (n / 10) ((48 + n % 10) ∷ tail))

pub length-digits : (n : ℕ) → length (digits n) ≤ suc n
unfolding digits
length-digits n = let h = length-digits_onto n n [] in ground arith
