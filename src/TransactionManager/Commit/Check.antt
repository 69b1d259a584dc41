-- ===== src/TransactionManager/Commit/Check.antt =====
-- When a commit is allowed.
use rep_crec.Base.{
  Bool, true, false, ◌≡◌, ◌≢◌, ◌↔◌, refl, ap, inl, inr, ◌⊎◌, some, [], ◌∷◌, ℤ, Map, find, arith, ok,
  err, Result, Option-cases, Bool-cases,
}
use rep_crec.Site.{Site, is_write_available, is_read_available}
use rep_crec.SiteManager.{SiteManager, get_site}
use rep_crec.Transaction.{Records}
use rep_crec.TransactionManager.Commit.{writes_available, vars_available, reads_available}

-- The site is there and up.
abbrev pub IsUp : SiteManager → ℤ → Type 0
IsUp sites sid = (s : Site) × (find sid sites ≡ some s) × (is_write_available s ≡ true)

-- The site is there, and the variable can be read at it.
abbrev pub IsReadable : SiteManager → ℤ → ℤ → Type 0
IsReadable sites sid x = (s : Site) × (find sid sites ≡ some s) × (is_read_available x s ≡ true)

abbrev pub AllUp : SiteManager → Records → Type 0
AllUp sites [] = Unit {0}
AllUp sites ((sid, vars) ∷ r) = IsUp sites sid × AllUp sites r

abbrev pub AllReadable : SiteManager → ℤ → Map ℤ → Type 0
AllReadable sites sid [] = Unit {0}
AllReadable sites sid ((x, v) ∷ vars) = IsReadable sites sid x × AllReadable sites sid vars

abbrev pub EveryReadable : SiteManager → Records → Type 0
EveryReadable sites [] = Unit {0}
EveryReadable sites ((sid, vars) ∷ r) = AllReadable sites sid vars × EveryReadable sites r

-- The sites that a transaction wrote to count as available exactly if each of them is there and up.
pub writes_available_iff :
    (r : Records) (sites : SiteManager) → (writes_available r sites ≡ ok true) ↔ AllUp sites r
unfolding writes_available get_site
writes_available_iff [] sites = (λ _. tt, λ _. refl)
writes_available_iff ((sid, vars) ∷ r) sites = elim (Option-cases (find sid sites)) [
  | inl n ↦ (λ e. absurd (ground arith), λ ((s, found, up), a). absurd cc)
  | inr (s, found) ↦ elim (Bool-cases (is_write_available s)) [
    | inl up ↦ (
      λ e. ((s, found, up), (writes_available_iff r sites).0 (ground arith)),
      λ (u, a). let h = (writes_available_iff r sites).1 a in ground arith,
    )
    | inr down ↦
        (λ e. absurd (ground arith), λ ((s', found', up'), a). absurd (let p : s ≡ s' = cc in cc))
  ]
]

vars_available_iff :
    (sid : ℤ) (vars : Map ℤ) (sites : SiteManager)
    → (vars_available sid vars sites ≡ ok true) ↔ AllReadable sites sid vars
unfolding vars_available get_site
vars_available_iff sid [] sites = (λ _. tt, λ _. refl)
vars_available_iff sid ((x, v) ∷ vars) sites = elim (Option-cases (find sid sites)) [
  | inl n ↦ (λ e. absurd (ground arith), λ ((s, found, up), a). absurd cc)
  | inr (s, found) ↦ elim (Bool-cases (is_read_available x s)) [
    | inl up ↦ (
      λ e. ((s, found, up), (vars_available_iff sid vars sites).0 (ground arith)),
      λ (u, a). let h = (vars_available_iff sid vars sites).1 a in ground arith,
    )
    | inr down ↦ (
      λ e. absurd (ground arith),
      λ ((s', found', up'), a).
          absurd (let p : s ≡ s' = cc in let q = ap (is_read_available x) p in cc),
    )
  ]
]

Result_true : (r : Result Bool) → (r ≡ ok true) ⊎ (r ≢ ok true)
Result_true (ok true) = inl refl
Result_true (ok false) = inr (λ e. cc)
Result_true (err x) = inr (λ e. cc)

-- What a transaction read counts as available exactly if each copy is at a site that is there and can
-- be read there still.
pub reads_available_iff :
    (r : Records) (sites : SiteManager)
    → (reads_available r sites ≡ ok true) ↔ EveryReadable sites r
unfolding reads_available
reads_available_iff [] sites = (λ _. tt, λ _. refl)
reads_available_iff ((sid, vars) ∷ r) sites =
    let here = vars_available_iff sid vars sites in
    let there = reads_available_iff r sites in
    elim (Result_true (vars_available sid vars sites)) [
      | inl h ↦
          (λ e. (here.0 h, there.0 (ground arith)), λ (u, a). let k = there.1 a in ground arith)
      | inr h ↦ (λ e. absurd (h (ground arith)), λ (u, a). absurd (h (here.1 u)))
    ]
