-- ===== src/SiteManager/Placement.antt =====
-- Which variables stand where: in the first state, by the rule of the home sites, and in a dump.
use rep_crec.Base.{
  tested, tested_lem, ◌+ℤ◌, ℕ, ◌+◌, ◌%◌, Bool, true, false, not, ◌&&◌, ◌≡◌, refl, ap, ◌∙◌, inl, inr,
  Option, some, none, List, [], ◌∷◌, ℤ, pos, negsuc, rem_ℤ, ◌==ℤ◌, Map, mem, find, range, arith,
  if◌then◌else◌, ℤ_discrete, Bool-cases,
}
use rep_crec.Global.{is_odd, home_site}
use rep_crec.Variable.{Variable, new_variable}
use rep_crec.Site.{new_site, new_variables, dump_cells}
use rep_crec.SiteManager.{site_ids, new_sites, new_site_manager}
use rep_crec.SiteManager.Copies.{copy}
use rep_crec.LockManager.Release.Frees.{sites_of}

find-new_variables :
    (x : ℤ) (ids : List ℤ)
    → find x (new_variables ids) ≡ (if mem x ids then some (new_variable x) else none)
unfolding new_variables
find-new_variables x [] = refl
find-new_variables x (k ∷ ids) = elim (ℤ_discrete x k) [
  | yes p ↦ ground (arith, ap new_variable p)
  | no p ↦ ground (arith, find-new_variables x ids)
]

pub new_site_variables : (k : ℤ) → (new_site k).variables ≡ new_variables (range 1 20)
unfolding new_site
new_site_variables k = refl

copy-new_sites :
    (a x : ℤ) (ids : List ℤ)
    → copy a x (new_sites ids)
      ≡ (if mem a ids && mem x (range 1 20) then some (new_variable x) else none)
unfolding new_sites
copy-new_sites a x [] = refl
copy-new_sites a x (k ∷ ids) = elim (ℤ_discrete a k) [
  | yes p ↦
      let q : copy a x (new_sites (k ∷ ids)) ≡ find x (new_site k).variables = ground arith in
      q ∙ ap (find x) (new_site_variables k) ∙ find-new_variables x (range 1 20) ∙ ground arith
  | no p ↦ ground (arith, copy-new_sites a x ids)
]

pub new_site_manager-copy :
    (a x : ℤ)
    → copy a x new_site_manager
      ≡ (if mem a site_ids && mem x (range 1 20) then some (new_variable x) else none)
unfolding new_site_manager
new_site_manager-copy a x = copy-new_sites a x site_ids

sites_table : tested (λ r. mem (pos (1 + r)) site_ids) 10 ≡ true
unfolding tested site_ids range ℤ_discrete ◌+ℤ◌
sites_table = refl

-- The home site of a variable of a number that is not negative is one of the ten sites.
pub home_site-site_ids : (n : ℕ) → mem (home_site (pos n)) site_ids ≡ true
unfolding home_site
home_site-site_ids n =
    tested_lem (λ r. mem (pos (1 + r)) site_ids) 10 (n % 10) (omega arith) sites_table

-- Of each variable its number and value, where the site holds it.
abbrev pub shown : ℤ → Map Variable → List (Option (ℤ × ℤ))
shown id [] = []
shown id ((k, v) ∷ vs) =
    (if mem id (sites_of v.id) then some (v.id, v.value) else none) ∷ shown id vs

abbrev is_natural : ℤ → Bool
is_natural (pos n) = true
is_natural (negsuc n) = false

abbrev pub all_natural : Map Variable → Bool
all_natural [] = true
all_natural ((k, v) ∷ vs) = is_natural v.id && all_natural vs

cell_shown :
    (id x : ℤ)
    → is_natural x ≡ true
    → mem id site_ids ≡ true
    → ((rem_ℤ x 2 ==ℤ pos 1) && not (id ==ℤ (rem_ℤ x 10 +ℤ pos 1))) ≡ not (mem id (sites_of x))
unfolding is_odd home_site ◌+ℤ◌
cell_shown id (negsuc n) natural h = absurd cc
cell_shown id (pos n) natural h = elim (Bool-cases (is_odd (pos n))) [
  | inl odd ↦ ground arith
  | inr even ↦ ground arith
]

if_not :
    {A : Type 0} (b c : Bool) (p q : A) → b ≡ not c → (if b then p else q) ≡ (if c then q else p)
if_not b true p q h = ground arith
if_not b false p q h = ground arith

-- Where no variable has a negative number, a dump of one of the ten sites shows the value of a copy
-- exactly if the site is one of those at which the locks of the variable are held, which are its home
-- site for an odd variable and all sites for an even one. The dump has a formula of its own for this.
pub dump_cells-sites_of :
    (id : ℤ) (vs : Map Variable)
    → all_natural vs ≡ true
    → mem id site_ids ≡ true
    → dump_cells id vs ≡ shown id vs
unfolding dump_cells
dump_cells-sites_of id [] natural h = refl
dump_cells-sites_of id ((k, v) ∷ vs) natural h =
    let cell : (if (rem_ℤ v.id 2 ==ℤ pos 1) && not (id ==ℤ (rem_ℤ v.id 10 +ℤ pos 1))
          then none
          else some (v.id, v.value))
        ≡ (if mem id (sites_of v.id) then some (v.id, v.value) else none) =
      if_not _ (mem id (sites_of v.id)) none (some (v.id, v.value))
        (cell_shown id v.id (ground arith) h) in
    ap (λ c. c ∷ dump_cells id vs) cell
    ∙ ap (λ cs. (if mem id (sites_of v.id) then some (v.id, v.value) else none) ∷ cs)
        (dump_cells-sites_of id vs (ground arith) h)
