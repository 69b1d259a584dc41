-- ===== src/Instruction/Text.antt =====
-- What the parser uses of `std::string`, over the codes of the characters, and `std::stoi`.
use rep_crec.Base.{
  ℕ, zero, suc, ◌+◌, ◌-◌, ◌*◌, ◌^◌, Bool, true, false, ◌&&◌, ◌||◌, Option, none, some, List, [],
  ◌∷◌, ◌++◌, ◌==◌, leb, ltb, if◌then◌else◌, ℤ, pos, negsuc, Result, ok, err, invalid_argument,
  out_of_range, out_of_bounds, ◌>>=◌, length,
}
use Prim.Native.Char.{code}
use Prim.Native.String.{String}

abbrev pub Text : Type 0
Text = List ℕ

abbrev pub codes : String → Text
codes String.[] = []
codes (String.◌∷◌ c s) = code c ∷ codes s

-- `size_t` has 64 bits, and `npos` is its largest value.
abbrev pub size_mod : ℕ
size_mod = 2 ^ 64

abbrev pub npos : ℕ
npos = 2 ^ 64 - 1

-- `s.find(prefix) == 0`
unfoldable pub starts_with : Text → Text → Bool
starts_with [] s = true
starts_with (p ∷ ps) [] = false
starts_with (p ∷ ps) (c ∷ s) = (c == p) && starts_with ps s

unfoldable pub index_of : ℕ → Text → Option ℕ
index_of c [] = none
index_of c (d ∷ s) =
    let rest : Option ℕ = elim (index_of c s) [ none ↦ none | some i ↦ some (suc i) ] in
    if d == c then some 0 else rest

-- `s.find_first_of(c)`
unfoldable pub find_first_of : ℕ → Text → ℕ
unfolding index_of
find_first_of c s = elim (index_of c s) [ none ↦ npos | some i ↦ i ]

abbrev pub drop : ℕ → Text → Text
drop zero s = s
drop (suc n) [] = []
drop (suc n) (c ∷ s) = drop n s

abbrev pub take : ℕ → Text → Text
take n [] = []
take zero (c ∷ s) = []
take (suc n) (c ∷ s) = c ∷ take n s

-- `s.substr(start, count)`
unfoldable pub substr : ℕ → ℕ → Text → Result Text
substr start count s =
    if ltb (length s) start then err out_of_range else ok (take count (drop start s))

unfoldable pub is_digit : ℕ → Bool
is_digit c = leb b'0' c && leb c b'9'

-- `isspace` in the C locale
unfoldable pub is_space : ℕ → Bool
is_space c = (c == 32) || (leb 9 c && leb c 13)

unfoldable pub skip_spaces : Text → Text
unfolding is_space
skip_spaces [] = []
skip_spaces (c ∷ s) = let rest = skip_spaces s in if is_space c then rest else c ∷ s

-- The value of the digits at the front, after those read before.
unfoldable pub read_digits : ℕ → Text → ℕ
unfolding is_digit
read_digits acc [] = acc
read_digits acc (c ∷ s) =
    let rest = read_digits (acc * 10 + (c - 48)) s in if is_digit c then rest else acc

abbrev pub first_is_digit : Text → Bool
unfolding is_digit
first_is_digit [] = false
first_is_digit (c ∷ s) = is_digit c

unfoldable pub natural : Text → Result ℕ
unfolding read_digits is_digit
natural s = if first_is_digit s then ok (read_digits 0 s) else err invalid_argument

unfoldable pub positive : Text → Result ℤ
unfolding natural
positive s = do n ← natural s; if ltb n (2 ^ 31) then ok (pos n) else err out_of_range

abbrev pub negate : ℕ → ℤ
negate zero = pos zero
negate (suc n) = negsuc n

unfoldable pub negative : Text → Result ℤ
unfolding natural
negative s = do n ← natural s; if leb n (2 ^ 31) then ok (negate n) else err out_of_range

unfoldable pub signed : Text → Result ℤ
unfolding positive negative
signed [] = err invalid_argument
signed (c ∷ s) =
    if c == b'-' then negative s else if c == b'+' then positive s else positive (c ∷ s)

-- `std::stoi(s)`: what follows the digits is ignored.
unfoldable pub stoi : Text → Result ℤ
unfolding signed skip_spaces
stoi s = signed (skip_spaces s)

-- The loop that splits the arguments at commas up to the closing bracket. Past the end of the text
-- the source reads out of bounds.
unfoldable pub split_arguments : Text → Text → Result (List Text)
split_arguments token [] = err out_of_bounds
split_arguments token (c ∷ s) = elim (c == b')') [
  | true ↦ ok (token ∷ [])
  | false ↦ elim (c == b',') [
    | true ↦ split_arguments [] s >>= λ tokens. ok (token ∷ tokens)
    | false ↦ split_arguments (token ++ c ∷ []) s
  ]
]

-- `tokens[i]`
unfoldable pub token_at : ℕ → List Text → Result Text
token_at i [] = err out_of_bounds
token_at zero (t ∷ ts) = ok t
token_at (suc i) (t ∷ ts) = token_at i ts
