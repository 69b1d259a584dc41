-- ===== src/Variable/Timeline.antt =====
-- The versions of a variable against a plain timeline of its commits.
use rep_crec.Base.{
  ◌≡◌, subst, ◌∙◌, inl, inr, [], ◌∷◌, List, ℤ, ◌≤ℤ◌, ◌<ℤ◌, ltb_ℤ, minus_one, arith, ok,
  if◌then◌else◌, Bool-cases,
}
use rep_crec.Variable.{
  Variable, Versions, new_variable, times_ten, set_version, last_until, get_value, set_value,
}
use rep_crec.Variable.Versions.{
  IsSorted, IsUntil, get_value-set_value_before, get_value-set_value_from, set_value-IsSorted,
}

-- Commits of values, the latest first, each with its time.
abbrev pub Commits : Type 0
Commits = List (ℤ × ℤ)

-- The value as of a time: that of the latest commit which is not after it.
abbrev pub timeline : ℤ → Commits → ℤ → ℤ
timeline start [] u = start
timeline start ((time, value) ∷ cs) u = if ltb_ℤ u time then timeline start cs u else value

-- The variable after these commits.
abbrev pub replay : Variable → Commits → Variable
replay v [] = v
replay v ((time, value) ∷ cs) = set_value value time (replay v cs)

abbrev last_time : Commits → ℤ
last_time [] = minus_one
last_time ((time, value) ∷ cs) = time

-- Each commit is after all earlier ones, and none is before time 0.
abbrev pub Ordered : Commits → Type 0
Ordered [] = Unit {0}
Ordered ((time, value) ∷ cs) = (last_time cs <ℤ time) × Ordered cs

IsUntil-later : (t u : ℤ) (vs : Versions) → t ≤ℤ u → IsUntil t vs → IsUntil u vs
IsUntil-later t u [] le h = tt
IsUntil-later t u ((s, w) ∷ vs) le h = (omega (arith, h.0, le), IsUntil-later t u vs le h.1)

set_version-IsUntil :
    (t v u : ℤ) (vs : Versions) → t ≤ℤ u → IsUntil u vs → IsUntil u (set_version t v vs)
unfolding set_version
set_version-IsUntil t v u [] le h = (le, tt)
set_version-IsUntil t v u ((s, w) ∷ vs) le h = ground (arith, set_version-IsUntil t v u vs le h.1)

replay-IsSorted : (x : ℤ) (cs : Commits) → IsSorted (replay (new_variable x) cs).versions
unfolding new_variable set_version
replay-IsSorted x [] = tt
replay-IsSorted x ((time, value) ∷ cs) =
    set_value-IsSorted value time (replay (new_variable x) cs) (replay-IsSorted x cs)

-- No version is later than the latest commit.
replay-IsUntil :
    (x : ℤ) (cs : Commits)
    → Ordered cs
    → IsUntil (last_time cs) (replay (new_variable x) cs).versions
unfolding new_variable set_version set_value
replay-IsUntil x [] o = (omega arith, tt)
replay-IsUntil x ((time, value) ∷ cs) o =
    set_version-IsUntil time value time (replay (new_variable x) cs).versions (omega arith) (
      IsUntil-later (last_time cs) time (replay (new_variable x) cs).versions (omega (arith, o.0))
        (replay-IsUntil x cs o.1))

-- A variable that starts with its first value and is committed to at rising times from 0 on reads, as
-- of any time from 0 on, as the latest commit that is not after this time, or as its first value,
-- which is ten times its number.
pub get_value-replay :
    (x u : ℤ) (cs : Commits)
    → Ordered cs
    → minus_one <ℤ u
    → get_value u (replay (new_variable x) cs) ≡ ok (timeline (times_ten x) cs u)
unfolding get_value new_variable set_version last_until
get_value-replay x u [] o lt = ground arith
get_value-replay x u ((time, value) ∷ cs) o lt = elim (Bool-cases (ltb_ℤ u time)) [
  | inl early ↦
      get_value-set_value_before u value time (replay (new_variable x) cs) (replay-IsSorted x cs)
        (λ p. let h : minus_one <ℤ minus_one = subst (λ y. minus_one <ℤ y) p lt in omega arith)
        (ground arith)
      ∙ ground (arith, get_value-replay x u cs o.1 lt)
  | inr late ↦
      get_value-set_value_from u value time (replay (new_variable x) cs) (replay-IsSorted x cs)
        (IsUntil-later (last_time cs) time (replay (new_variable x) cs).versions
          (omega (arith, o.0)) (replay-IsUntil x cs o.1))
        (ground arith)
      ∙ ground arith
]
