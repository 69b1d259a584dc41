-- ===== src/TransactionManager/Commit/Install.antt =====
-- What a commit writes: the records of the transaction, and nothing else.
use rep_crec.Transaction.{Records}
use rep_crec.TransactionManager.Commit.{apply_vars, apply_records}
use rep_crec.Base.{
  IsMap, >>=-eq-ok, ℤ_discrete, contains, find_or, inr, inl, Bool, true, false, ◌≡◌, refl, sym,
  subst, ◌∙◌, ap, ◌≢◌, ◌&&◌, ◌||◌, Option, none, some, List, [], ◌∷◌, ℤ, ◌==ℤ◌, Map, find, insert,
  find-insert_self, find-insert_ne, arith, if◌then◌else◌, Result, ok, err, Result-cases,
  Option-cases, null_pointer,
}
use rep_crec.Variable.{Variable, set_value}
use rep_crec.Site.{
  Site, assign_var, set_read_available, is_read_available, deref_variable, put_variable,
  get_variable,
}
use rep_crec.SiteManager.{SiteManager, get_site, put_site, on_site}
use rep_crec.SiteManager.Copies.{copy}
use rep_crec.Base

-- Whether the copy can be read.
abbrev readable_at : Option Site → ℤ → Bool
readable_at none var_id = false
readable_at (some s) var_id = is_read_available var_id s

abbrev pub readable : ℤ → ℤ → SiteManager → Bool
readable site_id var_id sites = readable_at (find site_id sites) var_id

-- The step for one variable.
abbrev pub assign : ℤ → ℤ → ℤ → Site → Result Site
assign time vid var s = Base.◌>>=◌ (assign_var vid var time s) λ s'. ok (set_read_available vid s')

assigned : ℤ → ℤ → ℤ → Site → Variable → Site
assigned time vid var s v = record s {
  variables = insert vid (set_value var time v) s.variables;
  read_available_map = insert vid true s.read_available_map;
}

assign-eq-ok :
    (time sid vid var : ℤ) (m : SiteManager) {m' : SiteManager}
    → on_site sid (assign time vid var) m ≡ ok m'
    → (s : Site) × (v : Variable) × (find sid m ≡ some s)
      × (find vid s.variables ≡ some v)
      × (m' ≡ insert sid (assigned time vid var s v) m)
unfolding on_site get_site assign_var deref_variable get_variable put_variable set_read_available
    put_site assigned
assign-eq-ok time sid vid var m {m'} e = elim (Option-cases (find sid m)) [
  | inl n ↦
      absurd (let h : on_site sid (assign time vid var) m ≡ err null_pointer = ground arith in cc)
  | inr (s, found) ↦ elim (Option-cases (find vid s.variables)) [
    | inl n ↦
        absurd (let h : on_site sid (assign time vid var) m ≡ err null_pointer = ground arith in cc)
    | inr (v, at) ↦ (
      s,
      v,
      found,
      at,
      (let h : on_site sid (assign time vid var) m ≡ ok (insert sid (assigned time vid var s v) m) =
            ground arith in
          cc),
    )
  ]
]

-- A copy after a commit at `time` with the given record for it.
abbrev pub install : ℤ → Option ℤ → Option Variable → Option Variable
install time none o = o
install time (some var) none = none
install time (some var) (some v) = some (set_value var time v)

pub assign-copy :
    (time a b sid vid var : ℤ) (m m' : SiteManager)
    → on_site sid (assign time vid var) m ≡ ok m'
    → (copy a b m'
        ≡ (if (a ==ℤ sid) && (b ==ℤ vid) then install time (some var) (copy a b m) else copy a b m))
      × (readable a b m' ≡ (((a ==ℤ sid) && (b ==ℤ vid)) || readable a b m))
unfolding assigned is_read_available
assign-copy time a b sid vid var m m' e =
    let (s, v, found, at, p) = assign-eq-ok time sid vid var m e in
    let s' = assigned time vid var s v in
    rw p (
      ground (
        arith,
        find-insert_self sid s' m,
        find-insert_ne a sid s' m,
        find-insert_self vid (set_value var time v) s.variables,
        find-insert_ne b vid (set_value var time v) s.variables,
      ),
      ground (
        arith,
        find-insert_self sid s' m,
        find-insert_ne a sid s' m,
        find-insert_self vid true s.read_available_map,
        find-insert_ne b vid true s.read_available_map,
      ),
    )

install_twice :
    (time : ℤ) (k b x : ℤ) (vars : Map ℤ) (o : Option Variable)
    → find k vars ≡ none
    → install time (find b vars) (if b ==ℤ k then install time (some x) o else o)
      ≡ install time (find b ((k, x) ∷ vars)) o
install_twice time k b x vars none h = ground arith
install_twice time k b x vars (some v) h = ground arith

-- The part of the commit for one site.
apply_vars-copy :
    (time sid : ℤ) (vars : Map ℤ) (m m' : SiteManager)
    → IsMap vars
    → apply_vars time sid vars m ≡ ok m'
    → (a b : ℤ)
    → (copy a b m' ≡ (if a ==ℤ sid then install time (find b vars) (copy a b m) else copy a b m))
      × (readable a b m' ≡ (((a ==ℤ sid) && contains b vars) || readable a b m))
unfolding apply_vars
apply_vars-copy time sid [] m m' d e a b =
    let p : m ≡ m' = cc in rw (← p) (ground arith, ground arith)
apply_vars-copy time sid ((k, x) ∷ vars) m m' d e a b =
    let (n, first, rest) =
      >>=-eq-ok (on_site sid (assign time k x) m) (apply_vars time sid vars) e in
    let (c, r) = assign-copy time a b sid k x m n first in
    let (c', r') = apply_vars-copy time sid vars n m' d.1 rest a b in
    (ground (arith, c, c', install_twice time k b x vars (copy a b m)), ground (arith, r, r'))

dv_head :
    (k : ℤ) (vars : Map ℤ) (r : Records)
    → ((a : ℤ) → IsMap (find_or [] a ((k, vars) ∷ r)))
    → IsMap vars
dv_head k vars r dv = subst IsMap (ground arith) (dv k)

dv_tail :
    (k : ℤ) (vars : Map ℤ) (r : Records)
    → contains k r ≡ false
    → ((a : ℤ) → IsMap (find_or [] a ((k, vars) ∷ r)))
    → (a : ℤ) → IsMap (find_or [] a r)
dv_tail k vars r h dv a = elim (ℤ_discrete a k) [
  | yes p ↦ subst IsMap (absent p) tt
  | no p ↦ subst IsMap (ground arith) (dv a)
]
  where
    absent : a ≡ k → [] ≡ find_or [] a r
    absent p = ground arith

-- A commit that finds every site installs exactly the records of the transaction: the copy of a
-- variable at a site gets the recorded value as a version of the commit's time if there is a record
-- for it, and stays as it was otherwise; a copy can be read then if it could be before, or if there is
-- a record for it. No site stands twice in the records, nor a variable twice at a site.
pub apply_records-installs :
    (time : ℤ) (r : Records) (m : SiteManager) {m' : SiteManager}
    → IsMap r
    → ((a : ℤ) → IsMap (find_or [] a r))
    → apply_records time r m ≡ ok m'
    → (a b : ℤ)
    → (copy a b m' ≡ install time (find b (find_or [] a r)) (copy a b m))
      × (readable a b m' ≡ (contains b (find_or [] a r) || readable a b m))
unfolding apply_records
apply_records-installs time [] m {m'} d dv e a b = let p : m ≡ m' = cc in rw (← p) (refl, refl)
apply_records-installs time ((k, vars) ∷ r) m {m'} d dv e a b =
    let (s, found, e1) =
      >>=-eq-ok (get_site k m) (λ _. Base.◌>>=◌ (apply_vars time k vars m) (apply_records time r))
        e in
    let (n, first, rest) = >>=-eq-ok (apply_vars time k vars m) (apply_records time r) e1 in
    let (c, q) = apply_vars-copy time k vars m n (dv_head k vars r dv) first a b in
    let (c', q') = apply_records-installs time r n d.1 (dv_tail k vars r d.0 dv) rest a b in
    (ground (arith, c, c', d.0), ground (arith, q, q', d.0))
