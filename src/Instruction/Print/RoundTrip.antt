-- ===== src/Instruction/Print/RoundTrip.antt =====
-- Printed reads and writes are read back.
use rep_crec.Base.{
  ◌≤◌, zero, ℕ, suc, ◌<◌, ◌^◌, ◌-◌, true, ◌≡◌, refl, sym, ap, ◌∙◌, List, [], ◌∷◌, ◌++◌, length, ℤ,
  pos, arith, ok, Result, ◌>>=◌,
}
use rep_crec.Instruction.{Instruction, write, read}
use rep_crec.Instruction.Text.{
  take, Text, codes, size_mod, stoi, split_arguments, substr, token_at, starts_with, find_first_of,
  index_of,
}
use rep_crec.Instruction.Parse.{
  parse, arguments, parse_write, parse_read, number_at, var_at, start_of,
}
use rep_crec.Instruction.Print.{digits, print_number, print_write, print_read}
use rep_crec.Instruction.Print.Number.{
  IsInt, is_plain, plain-digits, plain-print_number, length-digits, stoi-print_number,
}

append_assoc : (a : Text) (c : ℕ) (b : Text) → (a ++ c ∷ []) ++ b ≡ a ++ c ∷ b
append_assoc [] c b = refl
append_assoc (x ∷ a) c b = ap (λ y. x ∷ y) (append_assoc a c b)

append_nil : (a : Text) → a ++ [] ≡ a
append_nil [] = refl
append_nil (x ∷ a) = ap (λ y. x ∷ y) (append_nil a)

-- A plain text is taken into the token.
split_plain :
    (token s rest : Text)
    → is_plain s ≡ true
    → split_arguments token (s ++ rest) ≡ split_arguments (token ++ s) rest
unfolding split_arguments
split_plain token [] rest h = ap (λ y. split_arguments y rest) (sym (append_nil token))
split_plain token (c ∷ s) rest h =
    let step : split_arguments token ((c ∷ s) ++ rest)
        ≡ split_arguments (token ++ c ∷ []) (s ++ rest) =
      ground arith in
    step
    ∙ split_plain (token ++ c ∷ []) s rest (ground arith)
    ∙ ap (λ y. split_arguments y rest) (append_assoc token c s)

-- The arguments of a write, once the brackets are found.
split_write :
    (a b c : Text)
    → is_plain a ≡ true
    → is_plain b ≡ true
    → is_plain c ≡ true
    → split_arguments [] (a ++ (codes ",x" ++ (b ++ (codes "," ++ (c ++ codes ")")))))
      ≡ ok (a ∷ (codes "x" ++ b) ∷ c ∷ [])
unfolding split_arguments
split_write a b c ha hb hc = ground (
  arith,
  split_plain [] a (codes ",x" ++ (b ++ (codes "," ++ (c ++ codes ")")))) ha,
  split_plain (codes "x") b (codes "," ++ (c ++ codes ")")) hb,
  split_plain [] c (codes ")") hc,
)

split_read :
    (a b : Text)
    → is_plain a ≡ true
    → is_plain b ≡ true
    → split_arguments [] (a ++ (codes ",x" ++ (b ++ codes ")"))) ≡ ok (a ∷ (codes "x" ++ b) ∷ [])
unfolding split_arguments
split_read a b ha hb = ground (
  arith,
  split_plain [] a (codes ",x" ++ (b ++ codes ")")) ha,
  split_plain (codes "x") b (codes ")") hb,
)

take_all : (k : ℕ) (s : Text) → length s ≤ k → take k s ≡ s
take_all k [] h = refl
take_all zero (c ∷ s) h = absurd (omega arith)
take_all (suc k) (c ∷ s) h = ap (λ y. c ∷ y) (take_all k s (omega (arith, h)))

substr-variable :
    (x : ℕ) → x < 2 ^ 31 → substr 1 (size_mod - 1) (codes "x" ++ digits x) ≡ ok (digits x)
unfolding substr
substr-variable x h =
    ground (arith, take_all (size_mod - 1) (digits x) (omega (arith, length-digits x, h)))

stoi-digits : (x : ℕ) → x < 2 ^ 31 → stoi (digits x) ≡ ok (pos x)
unfolding print_number
stoi-digits x h = stoi-print_number (pos x) h

var_at_lem :
    (a : Text) (x : ℕ) (rest : List Text)
    → x < 2 ^ 31
    → var_at (a ∷ (codes "x" ++ digits x) ∷ rest) ≡ ok (pos x)
unfolding var_at
var_at_lem a x rest h = ap (λ r. r >>= stoi) (substr-variable x h) ∙ stoi-digits x h

arguments-write :
    (t x : ℕ) (v : ℤ)
    → arguments (print_write t x v) ≡ ok (digits t ∷ (codes "x" ++ digits x) ∷ print_number v ∷ [])
unfolding arguments start_of find_first_of index_of print_write
arguments-write t x v =
    split_write (digits t) (digits x) (print_number v) (plain-digits t) (plain-digits x)
      (plain-print_number v)

arguments-read :
    (t x : ℕ) → arguments (print_read t x) ≡ ok (digits t ∷ (codes "x" ++ digits x) ∷ [])
unfolding arguments start_of find_first_of index_of print_read
arguments-read t x = split_read (digits t) (digits x) (plain-digits t) (plain-digits x)

-- The fields, once the arguments are split.
write_fields :
    (memory : Instruction) (tokens : List Text) (s : Text) (t x v : ℤ)
    → arguments s ≡ ok tokens
    → number_at 0 tokens ≡ ok t
    → var_at tokens ≡ ok x
    → number_at 2 tokens ≡ ok v
    → parse_write memory s
      ≡ ok (record memory { type = write; tran_id = t; var_id = x; var_value = v })
unfolding parse_write
write_fields memory tokens s t x v a n y w =
    ap (λ r. r >>= after) a
    ∙ ap (λ r. r >>= after_tran) n
    ∙ ap (λ r. r >>= after_var t) y
    ∙ ap (λ r. r >>= after_value t x) w
  where
    after_value : ℤ → ℤ → ℤ → Result Instruction
    after_value t x v = ok (record memory { type = write; tran_id = t; var_id = x; var_value = v })

    after_var : ℤ → ℤ → Result Instruction
    after_var t x = number_at 2 tokens >>= after_value t x

    after_tran : ℤ → Result Instruction
    after_tran t = var_at tokens >>= after_var t

    after : List Text → Result Instruction
    after tokens = do
      t ← number_at 0 tokens
      x ← var_at tokens
      v ← number_at 2 tokens
      ok (record memory { type = write; tran_id = t; var_id = x; var_value = v })

number_first : (a : Text) (rest : List Text) → number_at 0 (a ∷ rest) ≡ stoi a
unfolding number_at token_at
number_first a rest = refl

number_third : (a b c : Text) (rest : List Text) → number_at 2 (a ∷ b ∷ c ∷ rest) ≡ stoi c
unfolding number_at token_at
number_third a b c rest = refl

read_fields :
    (memory : Instruction) (tokens : List Text) (s : Text) (t x : ℤ)
    → arguments s ≡ ok tokens
    → number_at 0 tokens ≡ ok t
    → var_at tokens ≡ ok x
    → parse_read memory s ≡ ok (record memory { type = read; tran_id = t; var_id = x })
unfolding parse_read
read_fields memory tokens s t x a n y =
    ap (λ r. r >>= after) a ∙ ap (λ r. r >>= after_tran) n ∙ ap (λ r. r >>= after_var t) y
  where
    after_var : ℤ → ℤ → Result Instruction
    after_var t x = ok (record memory { type = read; tran_id = t; var_id = x })

    after_tran : ℤ → Result Instruction
    after_tran t = var_at tokens >>= after_var t

    after : List Text → Result Instruction
    after tokens = do
      t ← number_at 0 tokens
      x ← var_at tokens
      ok (record memory { type = read; tran_id = t; var_id = x })

parse-print_write_step :
    (id : ℤ) (memory : Instruction) (t x : ℕ) (v : ℤ)
    → parse id memory (print_write t x v)
      ≡ parse_write (record memory { id = id }) (print_write t x v)
unfolding parse starts_with print_write
parse-print_write_step id memory t x v = refl

parse-print_read_step :
    (id : ℤ) (memory : Instruction) (t x : ℕ)
    → parse id memory (print_read t x) ≡ parse_read (record memory { id = id }) (print_read t x)
unfolding parse starts_with print_read
parse-print_read_step id memory t x = refl

-- A write that is printed with numbers that an `int` holds is parsed as that write.
pub parse-print_write :
    (id : ℤ) (memory : Instruction) (t x : ℕ) (v : ℤ)
    → t < 2 ^ 31
    → x < 2 ^ 31
    → IsInt v
    → parse id memory (print_write t x v)
      ≡ ok (record memory { id = id; type = write; tran_id = pos t; var_id = pos x; var_value = v })
parse-print_write id memory t x v ht hx hv =
    let a = digits t in
    let b = codes "x" ++ digits x in
    let c = print_number v in
    parse-print_write_step id memory t x v
    ∙ write_fields (record memory { id = id }) (a ∷ b ∷ c ∷ []) (print_write t x v) (pos t) (pos x)
        v (arguments-write t x v) (number_first a (b ∷ c ∷ []) ∙ stoi-digits t ht)
        (var_at_lem a x (c ∷ []) hx) (number_third a b c [] ∙ stoi-print_number v hv)

-- A read that is printed with numbers that an `int` holds is parsed as that read.
pub parse-print_read :
    (id : ℤ) (memory : Instruction) (t x : ℕ)
    → t < 2 ^ 31
    → x < 2 ^ 31
    → parse id memory (print_read t x)
      ≡ ok (record memory { id = id; type = read; tran_id = pos t; var_id = pos x })
parse-print_read id memory t x ht hx =
    let a = digits t in
    let b = codes "x" ++ digits x in
    parse-print_read_step id memory t x
    ∙ read_fields (record memory { id = id }) (a ∷ b ∷ []) (print_read t x) (pos t) (pos x)
        (arguments-read t x) (number_first a (b ∷ []) ∙ stoi-digits t ht) (var_at_lem a x [] hx)
