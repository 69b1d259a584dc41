-- ===== src/TransactionManager/Inv/Sites.antt =====
-- Changes of a site that leave the locks of its copies alone.
use rep_crec.Base.{
  Bool, true, false, ◌≡◌, refl, subst, sym, ap, ◌∙◌, ◌||◌, inl, inr, none, some, Option, [], ◌∷◌, ℤ,
  ◌==ℤ◌, Map, find, insert, find-insert_self, find-insert_ne, arith, ok, err, is_some, Option-cases,
  null_pointer, >>=-eq-ok, if◌then◌else◌, ◌&&◌, Bool-cases,
}
use rep_crec.Base
use rep_crec.Variable.{Variable, has_shared_lock, has_exclusive_lock, set_value}
use rep_crec.Site.{Site}
use rep_crec.SiteManager.{SiteManager, on_site, get_site, put_site}
use rep_crec.SiteManager.Copies.{copy}
use rep_crec.Transaction.{Transaction, Records}
use rep_crec.LockManager.Hold.{holds_copy, SameLocks, LockInv-SameLocks}
use rep_crec.Request.Exec.{change_site}
use rep_crec.TransactionManager.Commit.{apply_vars, apply_records, apply_writes}
use rep_crec.TransactionManager.Commit.Install.{install, assign, assign-copy}
use rep_crec.TransactionManager.{modify}
use rep_crec.TransactionManager.Triple.{
  Triple, Triple_bind_asks, Triple_modify, Triple_then, Triple_pure,
}
use rep_crec.TransactionManager.Inv.{Inv}

SameLocks-copies : (m m' : SiteManager) → ((a b : ℤ) → copy a b m' ≡ copy a b m) → SameLocks m m'
SameLocks-copies m m' h = (λ t a b. ap (holds_copy t) (h a b), λ a b. ap is_some (h a b))

SameLocks-trans : (m n o : SiteManager) → SameLocks m n → SameLocks n o → SameLocks m o
SameLocks-trans m n o (l, p) (k, q) = (λ t a b. k t a b ∙ l t a b, λ a b. q a b ∙ p a b)

on_site-copy :
    (sid a b : ℤ) (f : Site → Site) (m m' : SiteManager)
    → ((s : Site) → (f s).variables ≡ s.variables)
    → on_site sid (λ s. ok (f s)) m ≡ ok m'
    → copy a b m' ≡ copy a b m
unfolding on_site get_site put_site
on_site-copy sid a b f m m' h e = elim (Option-cases (find sid m)) [
  | inl n ↦ absurd (let k : on_site sid (λ s. ok (f s)) m ≡ err null_pointer = ground arith in cc)
  | inr (s, found) ↦
      let p : m' ≡ insert sid (f s) m = ground arith in
      ground (arith, p, h s, find-insert_self sid (f s) m, find-insert_ne a sid (f s) m)
]

pub on_site-SameLocks :
    (sid : ℤ) (f : Site → Site) (m m' : SiteManager)
    → ((s : Site) → (f s).variables ≡ s.variables)
    → on_site sid (λ s. ok (f s)) m ≡ ok m'
    → SameLocks m m'
on_site-SameLocks sid f m m' h e = SameLocks-copies m m' (λ a b. on_site-copy sid a b f m m' h e)

pub change_site-Inv :
    (sid : ℤ) (f : Site → Site)
    → ((s : Site) → (f s).variables ≡ s.variables)
    → Triple Inv (change_site sid f) Inv
unfolding change_site
change_site-Inv sid f h =
    Triple_bind_asks (λ tm. on_site sid (λ s. ok (f s)) tm.site_manager)
      λ sites.
        Triple_modify
          (λ tm p. LockInv-SameLocks (on_site-SameLocks sid f tm.site_manager sites h p.1) p.0)

install-holds :
    (t time var : ℤ) (o : Option Variable)
    → holds_copy t (install time (some var) o) ≡ holds_copy t o
unfolding set_value has_shared_lock has_exclusive_lock
install-holds t time var none = refl
install-holds t time var (some v) = refl

install-present :
    (time var : ℤ) (o : Option Variable) → is_some (install time (some var) o) ≡ is_some o
install-present time var none = refl
install-present time var (some v) = refl

assign-SameLocks :
    (time sid vid var : ℤ) (m m' : SiteManager)
    → on_site sid (assign time vid var) m ≡ ok m'
    → SameLocks m m'
assign-SameLocks time sid vid var m m' e = (
  λ t a b.
      ground
        (arith, assign-copy time a b sid vid var m m' e, install-holds t time var (copy a b m)),
  λ a b.
      ground
        (arith, assign-copy time a b sid vid var m m' e, install-present time var (copy a b m)),
)

apply_vars-SameLocks :
    (time sid : ℤ) (vars : Map ℤ) (m m' : SiteManager)
    → apply_vars time sid vars m ≡ ok m'
    → SameLocks m m'
unfolding apply_vars
apply_vars-SameLocks time sid [] m m' e =
    let p : m ≡ m' = cc in subst (SameLocks m) p (λ t a b. refl, λ a b. refl)
apply_vars-SameLocks time sid ((k, x) ∷ vars) m m' e =
    let (n, first, rest) =
      >>=-eq-ok (on_site sid (assign time k x) m) (apply_vars time sid vars) e in
    SameLocks-trans m n m' (assign-SameLocks time sid k x m n first)
      (apply_vars-SameLocks time sid vars n m' rest)

pub apply_records-SameLocks :
    (time : ℤ) (r : Records) (m m' : SiteManager) → apply_records time r m ≡ ok m' → SameLocks m m'
unfolding apply_records
apply_records-SameLocks time [] m m' e =
    let p : m ≡ m' = cc in subst (SameLocks m) p (λ t a b. refl, λ a b. refl)
apply_records-SameLocks time ((k, vars) ∷ r) m m' e =
    let (s, found, e1) =
      >>=-eq-ok (get_site k m) (λ _. Base.◌>>=◌ (apply_vars time k vars m) (apply_records time r))
        e in
    let (n, first, rest) = >>=-eq-ok (apply_vars time k vars m) (apply_records time r) e1 in
    SameLocks-trans m n m' (apply_vars-SameLocks time k vars m n first)
      (apply_records-SameLocks time r n m' rest)

pub apply_writes-Inv : (time : ℤ) (t : Transaction) → Triple Inv (apply_writes time t) Inv
unfolding apply_writes
apply_writes-Inv time t =
    Triple_bind_asks (λ tm. apply_records time t.write_records tm.site_manager)
      λ sites.
        Triple_then (modify (λ tm. record tm { site_manager = sites }))
          (Triple_modify (λ tm p.
            LockInv-SameLocks
              (apply_records-SameLocks time t.write_records tm.site_manager sites p.1) p.0))
          (Triple_pure true)
