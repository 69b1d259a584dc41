-- ===== src/SiteManager/Copies.antt =====
-- The copies of the variables over all sites, and what a change of one of them changes.
use rep_crec.Base.{
  true, refl, is_some, inr, inl, ◌&&◌, ◌≡◌, Option, none, some, ℤ, ◌==ℤ◌, find, insert, arith,
  find-insert_self, find-insert_ne, if◌then◌else◌, Option-cases, null_pointer, ok, err,
}
use rep_crec.Variable.{Variable}
use rep_crec.Site.{Site, get_variable, deref_variable, put_variable}
use rep_crec.SiteManager.{SiteManager, get_site, put_site, on_site, on_copy}

abbrev pub copy_at : Option Site → ℤ → Option Variable
copy_at none var_id = none
copy_at (some s) var_id = find var_id s.variables

-- The copy of a variable at a site.
abbrev pub copy : ℤ → ℤ → SiteManager → Option Variable
copy site_id var_id sites = copy_at (find site_id sites) var_id

-- What a successful change of one copy did.
pub on_copy-eq-ok :
    (sid vid : ℤ) (f : Variable → Variable) (sites : SiteManager) {sites' : SiteManager}
    → on_copy sid vid f sites ≡ ok sites'
    → (s : Site) × (v : Variable) × (find sid sites ≡ some s)
      × (find vid s.variables ≡ some v)
      × (sites' ≡ insert sid (record s { variables = insert vid (f v) s.variables }) sites)
unfolding on_copy on_site get_site deref_variable get_variable put_variable put_site
on_copy-eq-ok sid vid f sites {sites'} e = elim (Option-cases (find sid sites)) [
  | inl n ↦ absurd (let h : on_copy sid vid f sites ≡ err null_pointer = rw (n, on_copy) in cc)
  | inr (s, found) ↦ elim (Option-cases (find vid s.variables)) [
    | inl n ↦ absurd (let h : on_copy sid vid f sites ≡ err null_pointer = ground arith in cc)
    | inr (v, at) ↦ (
      s,
      v,
      found,
      at,
      (let h : on_copy sid vid f sites
              ≡ ok (insert sid (record s { variables = insert vid (f v) s.variables }) sites) =
            ground arith in
          cc),
    )
  ]
]

-- A change of one copy changes that copy by the function given, and no other.
pub on_copy_lem :
    (a b sid vid : ℤ) (f : Variable → Variable) (sites : SiteManager) {sites' : SiteManager}
    → on_copy sid vid f sites ≡ ok sites'
    → copy a b sites' ≡ (
        if (a ==ℤ sid) && (b ==ℤ vid)
        then elim (copy a b sites) [ none ↦ none | some v ↦ some (f v) ]
        else copy a b sites)
on_copy_lem a b sid vid f sites e =
    let (s, v, found, at, p) = on_copy-eq-ok sid vid f sites e in
    rw p (
      ground (
        arith,
        find-insert_self sid (record s { variables = insert vid (f v) s.variables }) sites,
        find-insert_ne a sid (record s { variables = insert vid (f v) s.variables }) sites,
        find-insert_self vid (f v) s.variables,
        find-insert_ne b vid (f v) s.variables,
      ))

mapped-is_some :
    (f : Variable → Variable) (o : Option Variable)
    → is_some (elim o as (λ _. Option Variable) [ none ↦ none | some v ↦ some (f v) ]) ≡ is_some o
mapped-is_some f none = refl
mapped-is_some f (some v) = refl

-- A change of a copy takes no copy away and makes none.
pub on_copy-is_some :
    (a b sid vid : ℤ) (f : Variable → Variable) (sites : SiteManager) {sites' : SiteManager}
    → on_copy sid vid f sites ≡ ok sites'
    → is_some (copy a b sites') ≡ is_some (copy a b sites)
on_copy-is_some a b sid vid f sites e =
    ground (arith, on_copy_lem a b sid vid f sites e, mapped-is_some f (copy a b sites))

-- A change of a copy that is there succeeds.
pub on_copy_total :
    (sid vid : ℤ) (f : Variable → Variable) (sites : SiteManager)
    → is_some (copy sid vid sites) ≡ true
    → (sites' : SiteManager) × (on_copy sid vid f sites ≡ ok sites')
unfolding on_copy on_site get_site put_site deref_variable get_variable put_variable
on_copy_total sid vid f sites h = elim (Option-cases (find sid sites)) [
  | inl n ↦ absurd (ground arith)
  | inr (s, found) ↦ elim (Option-cases (find vid s.variables)) [
    | inl n ↦ absurd (ground arith)
    | inr (v, at) ↦
        (insert sid (record s { variables = insert vid (f v) s.variables }) sites, ground arith)
  ]
]
