-- ===== src/TransactionManager/Roll.antt =====
-- The set of the transactions by age beside the map of the transactions, and what the wait-for graph
-- and the lock table may name: true at the start, and kept by every request on orderly input.
pub mod Evict
pub mod Small
pub mod Known
pub mod Write
pub mod Abort
pub mod Read
pub mod Exec
pub mod Reach
use rep_crec.Base.{
  Bool, true, false, ◌&&◌, ◌≡◌, ◌≢◌, refl, sym, subst, ap, ◌∙◌, inl, inr, Option, some, none, List,
  [], ◌∷◌, ℤ, pos, negsuc, ◌<ℤ◌, ◌==ℤ◌, ltb_ℤ, Map, Set, mem, find, find_or, erase, insert,
  contains, range, find-erase_self, find-erase_ne, find-insert_self, find-insert_ne, arith, ok, err,
  ℤ_discrete, Bool-cases, Option-cases, ◌+ℤ◌,
}
use rep_crec.Global.{var_count, is_odd, home_site}
use rep_crec.LockManager.{is_waiting}
use rep_crec.LockManager.Release.Frees.{sites_of}
use rep_crec.LockManager.Hold.{present}
use rep_crec.SiteManager.{SiteManager, site_ids}
use rep_crec.SiteManager.Placement.{home_site-site_ids}
use rep_crec.Transaction.{Transaction}
use rep_crec.TransactionManager.{TransactionManager, AgeSet, erase_age, erase_from_set, insert_age}
use rep_crec.TransactionManager.Deadlocks.{Breakable, Aged, Before, Descending, ids}
use rep_crec.TransactionManager.Deadlocks.Step.{Before-ne}

pub record RollInv (transactions : Map Transaction) (set : AgeSet) (table graph : Map Set)
    (sites : SiteManager) : Type 0 where
  pub aged : Aged transactions set
  pub descending : Descending set
  pub all : (t : ℤ) → contains t transactions ≡ true → mem t (ids set) ≡ true
  pub tabled : (t x : ℤ) → mem x (find_or [] t table) ≡ true → mem x (range 1 var_count) ≡ true
  pub copies : (a x : ℤ) → present a x sites ≡ (mem a site_ids && mem x (range 1 var_count))
  pub waits : (t : ℤ) → is_waiting t graph ≡ true → contains t transactions ≡ true

abbrev pub Roll : TransactionManager → Type 0
Roll tm =
    RollInv tm.transactions tm.transactions_set tm.lock_manager.lock_table
      tm.lock_manager.wait_for_graph tm.site_manager

numbered_site :
    (sid x : ℤ)
    → mem x (range 1 var_count) ≡ true
    → mem sid (sites_of x) ≡ true
    → mem sid site_ids ≡ true
unfolding range ◌+ℤ◌ ℤ_discrete
numbered_site sid (negsuc n) h k = cc
numbered_site sid (pos n) h k = elim (Bool-cases (is_odd (pos n))) [
  | inl odd ↦
      let p : sid ≡ home_site (pos n) = ground arith in
      ap (λ y. mem y site_ids) p ∙ home_site-site_ids n
  | inr even ↦ ground arith
]

pub Roll-Breakable : (tm : TransactionManager) → Roll tm → Breakable tm
Roll-Breakable tm r = record {
  aged = r.aged;
  descending = r.descending;
  waiters = λ t h. r.all t (r.waits t h);
  there = λ t x sid h k.
      let m = r.tabled t x h in r.copies sid x ∙ ground (arith, numbered_site sid x m k);
}

-- A transaction that is changed keeps its time.
pub Aged-insert :
    (k : ℤ) (old new : Transaction) (ts : Map Transaction) (s : AgeSet)
    → find k ts ≡ some old
    → new.timestamp ≡ old.timestamp
    → Aged ts s
    → Aged (insert k new ts) s
Aged-insert k old new ts [] f e a = tt
Aged-insert k old new ts ((time, id) ∷ s) f e ((t, found, y), a) = (
  elim (ℤ_discrete id k) [
    | yes p ↦
        let q : t ≡ old = ground arith in
        (
          new,
          ap (λ j. find j (insert k new ts)) p ∙ find-insert_self k new ts,
          e ∙ ap (λ x. x.timestamp) (sym q) ∙ y,
        )
    | no p ↦ (t, find-insert_ne id k new ts p ∙ found, y)
  ],
  Aged-insert k old new ts s f e a,
)

pub contains-insert_back :
    (j k : ℤ) (old new : Transaction) (ts : Map Transaction)
    → find k ts ≡ some old
    → contains j (insert k new ts) ≡ contains j ts
contains-insert_back j k old new ts f = elim (ℤ_discrete j k) [
  | yes p ↦ ground (arith, find-insert_self k new ts)
  | no p ↦ ground (arith, find-insert_ne j k new ts p)
]
