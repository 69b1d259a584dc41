-- ===== src/Base/Outcome.antt =====
-- Outcomes: a C++ exception, or undefined behaviour that the model refuses to go beyond.
use mathlib.Core.Logic.{◌⊎◌, inl, inr}
use mathlib.Core.Path.{◌≡◌, refl}
use mathlib.Core.Option.{Option, none, some}

-- The first two are exceptions that nothing catches, the next five are undefined behaviour:
-- a null pointer followed, `prev` of the first position, `begin` of an empty set followed, an
-- iterator used after its element was erased, a position past the end of a sequence. `out_of_fuel`
-- is the model's own.
pub data Error : Type 0 where
  invalid_argument out_of_range null_pointer before_begin empty_set invalid_iterator out_of_bounds
        out_of_fuel :
      Error

pub data Result {ℓ} (A : Type ℓ) : Type ℓ where
  ok : A → Result A
  err : Error → Result A

abbrev pub or_fail {ℓ} : {A : Type ℓ} → Option A → Error → Result A
or_fail none x = err x
or_fail (some v) x = ok v

infixl 5 ◌>>=◌
abbrev pub ◌>>=◌ {ℓ κ} : {V : Type ℓ} {W : Type κ} → Result V → (V → Result W) → Result W
err x >>= next = err x
ok v >>= next = next v

infixl 5 ◌>>◌
abbrev pub ◌>>◌ {ℓ κ} : {V : Type ℓ} {W : Type κ} → Result V → Result W → Result W
first >> second = first >>= λ _. second

-- A successful bind has a successful first part.
pub >>=-eq-ok {ℓ κ} :
    {V : Type ℓ} {W : Type κ} (r : Result V) (next : V → Result W) {w : W}
    → (r >>= next) ≡ ok w
    → (v : V) × (r ≡ ok v) × (next v ≡ ok w)
>>=-eq-ok (err x) next e = cc
>>=-eq-ok (ok v) next e = (v, refl, e)

pub Result-cases {ℓ} :
    {A : Type ℓ} (r : Result A) → ((a : A) × (r ≡ ok a)) ⊎ ((e : Error) × (r ≡ err e))
Result-cases (err x) = inr (x, refl)
Result-cases (ok v) = inl (v, refl)
