-- ===== src/TransactionManager/Roll/Abort.antt =====
-- The release of all locks, the eviction and the abort of a transaction, and what changes at the
-- sites, keep the roll of the transactions.
use rep_crec.Base.{true, false, ◌≡◌, subst, sym, ◌∙◌, [], ◌∷◌, not, ℤ, Map, Set, find, ok}
use rep_crec.LockManager.{is_waiting}
use rep_crec.LockManager.Hold.{present}
use rep_crec.LockManager.Release.{release_locks}
use rep_crec.Site.{Site}
use rep_crec.SiteManager.{SiteManager, on_site}
use rep_crec.Transaction.{Transaction}
use rep_crec.Request.Exec.{change_site, abort_all}
use rep_crec.TransactionManager.{
  TransactionManager, AgeSet, ◌>>◌, asks, modify, pure, abort_transaction, release,
  evict_transaction, erase_from_set,
}
use rep_crec.TransactionManager.Abort.{abort_transaction-eq-ok}
use rep_crec.TransactionManager.Commit.{
  commit, writes_available, reads_available, apply_writes, apply_records,
}
use rep_crec.TransactionManager.Inv.Sites.{on_site-SameLocks, apply_records-SameLocks}
use rep_crec.TransactionManager.Triple.{
  Triple, Triple_modify, Triple_bind_asks, Triple_bind, Triple_asks, Triple_if, Triple_then,
  Triple_pure,
}
use rep_crec.TransactionManager.Roll.{RollInv, Roll}
use rep_crec.TransactionManager.Roll.Evict.{erase_from_set-RollInv}
use rep_crec.TransactionManager.Roll.Small.{release_locks-RollInv}

-- The roll is right, and the transaction does not wait.
abbrev pub Idle : ℤ → TransactionManager → Type 0
Idle t tm = Roll tm × (is_waiting t tm.lock_manager.wait_for_graph ≡ false)

pub release-Idle : (t : ℤ) → Triple Roll (release t) (Idle t)
unfolding release
release-Idle t =
    Triple_bind_asks (λ tm. release_locks t (tm.lock_manager, tm.site_manager))
      λ ls. Triple_modify (λ tm p.
        release_locks-RollInv tm.transactions tm.transactions_set t tm.lock_manager tm.site_manager
          p.1 p.0)

pub evict-Roll : (t : ℤ) → Triple (Idle t) (evict_transaction t) Roll
unfolding evict_transaction
evict-Roll t =
    Triple_bind_asks (λ tm. erase_from_set (find t tm.transactions) tm.transactions_set)
      λ s. Triple_modify (λ tm p.
        erase_from_set-RollInv t tm.transactions tm.transactions_set s tm.lock_manager.lock_table
          tm.lock_manager.wait_for_graph tm.site_manager p.1 p.0.1 p.0.0)

pub abort_transaction-Roll : (t : ℤ) → Triple Roll (abort_transaction t) Roll
abort_transaction-Roll t = record {
  run = λ tm tm' a e i.
      let (s, l, sites, out, freed, p) = abort_transaction-eq-ok t tm e in
      let (j, idle) =
        release_locks-RollInv tm.transactions tm.transactions_set t tm.lock_manager tm.site_manager
          freed i in
      subst Roll (sym p) (
        erase_from_set-RollInv t tm.transactions tm.transactions_set s l.lock_table l.wait_for_graph
          sites out idle j);
}

pub abort_all-Roll : (ts : Set) → Triple Roll (abort_all ts) Roll
unfolding abort_all
abort_all-Roll [] = Triple_pure tt
abort_all-Roll (t ∷ ts) =
    Triple_then (abort_transaction t) (abort_transaction-Roll t) (abort_all-Roll ts)

-- The same copies are there.
sites_RollInv :
    (ts : Map Transaction) (s : AgeSet) (table graph : Map Set) (sites sites' : SiteManager)
    → ((a x : ℤ) → present a x sites' ≡ present a x sites)
    → RollInv ts s table graph sites
    → RollInv ts s table graph sites'
sites_RollInv ts s table graph sites sites' h i = record {
  aged = i.aged;
  descending = i.descending;
  all = i.all;
  tabled = i.tabled;
  copies = λ a x. h a x ∙ i.copies a x;
  waits = i.waits;
}

sites_Roll :
    (tm : TransactionManager) (sites : SiteManager)
    → ((a x : ℤ) → present a x sites ≡ present a x tm.site_manager)
    → Roll tm
    → Roll (record tm { site_manager = sites })
sites_Roll tm sites =
    sites_RollInv tm.transactions tm.transactions_set tm.lock_manager.lock_table
      tm.lock_manager.wait_for_graph tm.site_manager sites

pub change_site-Roll :
    (sid : ℤ) (f : Site → Site)
    → ((s : Site) → (f s).variables ≡ s.variables)
    → Triple Roll (change_site sid f) Roll
unfolding change_site
change_site-Roll sid f h =
    Triple_bind_asks (λ tm. on_site sid (λ s. ok (f s)) tm.site_manager)
      λ sites.
        Triple_modify
          (λ tm p. sites_Roll tm sites (on_site-SameLocks sid f tm.site_manager sites h p.1).1 p.0)

apply_writes-Roll : (time : ℤ) (t : Transaction) → Triple Roll (apply_writes time t) Roll
unfolding apply_writes
apply_writes-Roll time t =
    Triple_bind_asks (λ tm. apply_records time t.write_records tm.site_manager)
      λ sites.
        Triple_then (modify (λ tm. record tm { site_manager = sites }))
          (Triple_modify (λ tm p.
            sites_Roll tm sites
              (apply_records-SameLocks time t.write_records tm.site_manager sites p.1).1 p.0))
          (Triple_pure true)

refuses : (t : ℤ) → Triple Roll (abort_transaction t >> pure false) Roll
refuses t = Triple_then (abort_transaction t) (abort_transaction-Roll t) (Triple_pure false)

pub commit-Roll : (time : ℤ) (t : Transaction) → Triple Roll (commit time t) Roll
unfolding commit
commit-Roll time t =
    Triple_bind (asks (λ tm. writes_available t.write_accessed_sites tm.site_manager))
      (Triple_asks (λ tm. writes_available t.write_accessed_sites tm.site_manager))
      λ written. Triple_if (not written) (refuses t.transaction_id) (
        Triple_bind (asks (λ tm. reads_available t.read_accessed_sites tm.site_manager))
          (Triple_asks (λ tm. reads_available t.read_accessed_sites tm.site_manager))
          λ readable.
            Triple_if (not readable) (refuses t.transaction_id) (apply_writes-Roll time t))
