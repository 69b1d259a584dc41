-- ===== src/TransactionManager/Inv/Abort.antt =====
-- The release of all locks, the eviction and the abort of a transaction keep the invariant.
use rep_crec.Base.{
  true, false, ◌≡◌, subst, sym, ap, ◌∙◌, ℤ, Map, find, erase, contains, erase-IsMap, find-erase_ne,
  find-erase_self, ℤ_discrete, ok, is_some, Set,
}
use rep_crec.LockManager.{LockManager}
use rep_crec.LockManager.Release.{release_locks}
use rep_crec.LockManager.Hold.{LockInv, LockInv-transactions}
use rep_crec.LockManager.Hold.Release.{release_locks-LockInv, release_locks-eq-ok}
use rep_crec.SiteManager.{SiteManager}
use rep_crec.Transaction.{Transaction}
use rep_crec.TransactionManager.{
  TransactionManager, abort_transaction, release, evict_transaction, erase_from_set, asks,
}
use rep_crec.TransactionManager.Abort.{abort_transaction-eq-ok}
use rep_crec.TransactionManager.Triple.{
  Triple, Triple_bind_asks, Triple_bind, Triple_asks, Triple_modify,
}
use rep_crec.TransactionManager.Inv.{Inv}

-- A transaction without locks may be forgotten.
forgets :
    (t : ℤ) (table : Map Set) (transactions : Map Transaction) (sites : SiteManager)
    → contains t table ≡ false
    → LockInv table transactions sites
    → LockInv table (erase t transactions) sites
forgets t table transactions sites h i =
    LockInv-transactions
      (λ u k m. elim (ℤ_discrete u t) [
        | yes p ↦ absurd (let q = subst (λ y. contains y table ≡ true) p k in cc)
        | no p ↦ ap is_some (find-erase_ne u t transactions p) ∙ m
      ])
      (erase-IsMap t transactions i.known) i

abbrev Unlisted : ℤ → TransactionManager → Type 0
Unlisted t tm = Inv tm × (contains t tm.lock_manager.lock_table ≡ false)

released :
    (t : ℤ) (transactions : Map Transaction) (l l' : LockManager) (sites sites' : SiteManager)
    → release_locks t (l, sites) ≡ ok (l', sites')
    → LockInv l.lock_table transactions sites
    → LockInv l'.lock_table transactions sites' × (contains t l'.lock_table ≡ false)
released t transactions l l' sites sites' e i = (
  release_locks-LockInv t l sites e transactions i,
  ap (contains t) (release_locks-eq-ok t l sites e).1 ∙ ap is_some (find-erase_self t l.lock_table),
)

pub release-Unlisted : (t : ℤ) → Triple Inv (release t) (Unlisted t)
unfolding release
release-Unlisted t =
    Triple_bind_asks (λ tm. release_locks t (tm.lock_manager, tm.site_manager))
      λ ls.
        Triple_modify
          (λ tm p. released t tm.transactions tm.lock_manager ls.0 tm.site_manager ls.1 p.1 p.0)

pub evict-Inv : (t : ℤ) → Triple (Unlisted t) (evict_transaction t) Inv
unfolding evict_transaction
evict-Inv t =
    Triple_bind (asks (λ tm. erase_from_set (find t tm.transactions) tm.transactions_set))
      (Triple_asks (λ tm. erase_from_set (find t tm.transactions) tm.transactions_set))
      λ s.
        Triple_modify
          (λ tm p. forgets t tm.lock_manager.lock_table tm.transactions tm.site_manager p.1 p.0)

pub abort_transaction-Inv : (t : ℤ) → Triple Inv (abort_transaction t) Inv
abort_transaction-Inv t = record {
  run = λ tm tm' a e i.
      let (s, l, sites, _, e2, p) = abort_transaction-eq-ok t tm e in
      let (j, h) = released t tm.transactions tm.lock_manager l tm.site_manager sites e2 i in
      subst Inv (sym p) (forgets t l.lock_table tm.transactions sites h j);
}
