-- ===== src/Variable/Versions.antt =====
-- Multiversion reads: a version that is committed is seen from its time on, and by nobody earlier.
use rep_crec.Base.{
  ◌+◌, ◌≡◌, refl, ◌≢◌, Option, none, some, [], ◌∷◌, ℤ, ◌≤ℤ◌, ◌<ℤ◌, minus_one, arith, ok, pos_part,
  neg_part,
}
use rep_crec.Variable.{Variable, Versions, set_version, last_until, get_value, set_value}

-- The times rise, and all lie after `t`.
abbrev pub IsAfter : ℤ → Versions → Type 0
IsAfter t [] = Unit {0}
IsAfter t ((u, w) ∷ vs) = (t <ℤ u) × IsAfter u vs

abbrev pub IsSorted : Versions → Type 0
IsSorted [] = Unit {0}
IsSorted ((u, w) ∷ vs) = IsAfter u vs

-- No version is later than `t`.
abbrev pub IsUntil : ℤ → Versions → Type 0
IsUntil t [] = Unit {0}
IsUntil t ((u, w) ∷ vs) = (u ≤ℤ t) × IsUntil t vs

pub eq_of_parts : (a b : ℤ) → pos_part a + neg_part b ≡ pos_part b + neg_part a → a ≡ b
eq_of_parts a b h = ground arith

set_version-IsAfter :
    (s t v : ℤ) (vs : Versions) → IsAfter s vs → s <ℤ t → IsAfter s (set_version t v vs)
unfolding set_version
set_version-IsAfter s t v [] h lt = (lt, tt)
set_version-IsAfter s t v ((u, w) ∷ vs) h lt =
    ground (arith, set_version-IsAfter u t v vs h.1, eq_of_parts t u)

set_version-IsSorted : (t v : ℤ) (vs : Versions) → IsSorted vs → IsSorted (set_version t v vs)
unfolding set_version
set_version-IsSorted t v [] h = tt
set_version-IsSorted t v ((u, w) ∷ vs) h =
    ground (arith, set_version-IsAfter u t v vs h, eq_of_parts t u)

last_until-after :
    (u : ℤ) (b : Option ℤ) (t : ℤ) (vs : Versions) → IsAfter t vs → u <ℤ t → last_until u b vs ≡ b
unfolding last_until
last_until-after u b t [] h lt = refl
last_until-after u b t ((s, w) ∷ vs) h lt = ground arith

last_until-set_version_lt :
    (u t v : ℤ) (b : Option ℤ) (vs : Versions)
    → u <ℤ t
    → IsSorted vs
    → last_until u b (set_version t v vs) ≡ last_until u b vs
unfolding last_until set_version
last_until-set_version_lt u t v b [] lt h = ground arith
last_until-set_version_lt u t v b ((s, w) ∷ []) lt h = ground (arith, eq_of_parts t s)
last_until-set_version_lt u t v b ((s, w) ∷ (r, x) ∷ vs) lt h =
    ground (arith, eq_of_parts t s, last_until-set_version_lt u t v (some w) ((r, x) ∷ vs) lt h.1)

last_until-set_version_le :
    (u t v : ℤ) (b : Option ℤ) (vs : Versions)
    → t ≤ℤ u
    → IsUntil t vs
    → IsSorted vs
    → last_until u b (set_version t v vs) ≡ some v
unfolding last_until set_version
last_until-set_version_le u t v b [] le h k = ground arith
last_until-set_version_le u t v b ((s, w) ∷ []) le h k = ground (arith, eq_of_parts t s)
last_until-set_version_le u t v b ((s, w) ∷ (r, x) ∷ vs) le h k =
    ground
      (arith, eq_of_parts t s, last_until-set_version_le u t v (some w) ((r, x) ∷ vs) le h.1 k.1)

-- The versions of a variable stay in order of time when a value is set.
pub set_value-IsSorted :
    (value timestamp : ℤ) (x : Variable)
    → IsSorted x.versions
    → IsSorted (set_value value timestamp x).versions
unfolding set_value
set_value-IsSorted value timestamp x h = set_version-IsSorted timestamp value x.versions h

-- A value set at a time does not change what is read as of any earlier time, if the versions are in
-- order of time and the earlier time is not -1.
pub get_value-set_value_before :
    (u value timestamp : ℤ) (x : Variable)
    → IsSorted x.versions
    → u ≢ minus_one
    → u <ℤ timestamp
    → get_value u (set_value value timestamp x) ≡ get_value u x
unfolding get_value set_value
get_value-set_value_before u value timestamp x h n lt =
    ground (arith, last_until-set_version_lt u timestamp value none x.versions lt h)

-- A value set at a time that no version is later than is what is read as of that time and of every
-- later one, if the versions are in order of time.
pub get_value-set_value_from :
    (u value timestamp : ℤ) (x : Variable)
    → IsSorted x.versions
    → IsUntil timestamp x.versions
    → timestamp ≤ℤ u
    → get_value u (set_value value timestamp x) ≡ ok value
unfolding get_value set_value
get_value-set_value_from u value timestamp x h k le =
    ground (arith, last_until-set_version_le u timestamp value none x.versions le k h)
