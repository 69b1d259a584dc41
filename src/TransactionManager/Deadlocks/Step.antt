-- ===== src/TransactionManager/Deadlocks/Step.antt =====
-- One abort of the youngest transaction.
use rep_crec.Base.{
  true, ◌≡◌, ◌≢◌, refl, sym, subst, ap, ◌∙◌, some, [], ◌∷◌, List, ℤ, ◌<ℤ◌, Map, Set, mem, find,
  find_or, erase, arith, ok, find-erase_ne, find-erase_self, ℤ_discrete,
}
use rep_crec.LockManager.{is_waiting, LockManager}
use rep_crec.LockManager.Release.{
  unlock, unlock_at, unlock_all, release_locks, release_waiters, emptied, erase_all,
}
use rep_crec.LockManager.Release.Frees.{sites_of, unlock_at_lem, release_locks_frees}
use rep_crec.LockManager.Hold.{present}
use rep_crec.LockManager.Hold.Release.{release_locks-eq-ok, SameFor-present}
use rep_crec.SiteManager.{SiteManager}
use rep_crec.SiteManager.Copies.{copy, on_copy_total, on_copy-is_some}
use rep_crec.LockManager.Release.Waiters.{find-erase_all}
use rep_crec.Transaction.{Transaction}
use rep_crec.Request.{aborted}
use rep_crec.TransactionManager.{
  TransactionManager, AgeSet, abort_transaction, evict_transaction, drop_blocked, release, print,
  erase_from_set, erase_age,
}
use rep_crec.TransactionManager.Deadlocks.{Aged, Before, Descending, ids, Breakable}

unlock_at_total :
    (t x : ℤ) (sids : List ℤ) (m : SiteManager)
    → ((sid : ℤ) → mem sid sids ≡ true → present sid x m ≡ true)
    → (m' : SiteManager) × (unlock_at t x sids m ≡ ok m')
unfolding unlock_at
unlock_at_total t x [] m h = (m, refl)
unlock_at_total t x (sid ∷ sids) m h =
    let (n, first) = on_copy_total sid x (unlock t) m (h sid (ground arith)) in
    let (o, rest) =
      unlock_at_total t x sids n
        (λ k m'. on_copy-is_some k x sid x (unlock t) m first ∙ h k (ground arith)) in
    (o, ground arith)

unlock_all_total :
    (t : ℤ) (xs : Set) (m : SiteManager)
    → ((x sid : ℤ) → mem x xs ≡ true → mem sid (sites_of x) ≡ true → present sid x m ≡ true)
    → (m' : SiteManager) × (unlock_all t xs m ≡ ok m')
unfolding unlock_all
unlock_all_total t [] m h = (m, refl)
unlock_all_total t (x ∷ xs) m h =
    let (n, first) = unlock_at_total t x (sites_of x) m (λ sid k. h x sid (ground arith) k) in
    let keeps = (unlock_at_lem t x (sites_of x) m n first).0 in
    let (o, rest) = unlock_all_total t xs n (λ y sid k q.
      SameFor-present t (copy sid y m) (copy sid y n) (keeps sid y).0 ∙ h y sid (ground arith) q) in
    (o, ground arith)

release_locks_total :
    (t : ℤ) (l : LockManager) (m : SiteManager)
    → ((x sid : ℤ)
        → mem x (find_or [] t l.lock_table) ≡ true
        → mem sid (sites_of x) ≡ true
        → present sid x m ≡ true)
    → (l' : LockManager) × (m' : SiteManager) × (release_locks t (l, m) ≡ ok (l', m'))
unfolding release_locks
release_locks_total t l m h =
    let (n, first) = unlock_all_total t (find_or [] t l.lock_table) m h in
    (
      record {
        lock_table = erase t l.lock_table;
        wait_for_graph = release_waiters t l.wait_for_graph;
      },
      n,
      ground arith,
    )

-- Who waits after a release is another, and waited before.
pub release_waiters_waiting :
    (u t : ℤ) (g : Map Set)
    → is_waiting u (release_waiters t g) ≡ true
    → (u ≢ t) × (is_waiting u g ≡ true)
unfolding is_waiting release_waiters
release_waiters_waiting u t g h = elim (ℤ_discrete u t) [
  | yes p ↦ absurd (ground (arith, find-erase_self t (erase_all (emptied t g) g)))
  | no p ↦ (
    p,
    ground
        (arith, find-erase_ne u t (erase_all (emptied t g) g) p, find-erase_all u (emptied t g) g),
  )
]

pub Before-ne :
    (time id : ℤ) (s : AgeSet) (ts : Map Transaction) (t : Transaction)
    → find id ts ≡ some t
    → t.timestamp ≡ time
    → Aged ts s
    → Before time s
    → Aged (erase id ts) s
Before-ne time id [] ts t f e a b = tt
Before-ne time id ((u, k) ∷ s) ts t f e ((x, found, y), a) (lt, b) =
    ((x, find-erase_ne k id ts distinct ∙ found, y), Before-ne time id s ts t f e a b)
  where
    distinct : k ≢ id
    distinct p =
        let q : u ≡ time = cc in let r : time <ℤ time = subst (λ y. y <ℤ time) q lt in omega arith

erase_first :
    (time id : ℤ) (s : AgeSet) (t : Transaction)
    → t.timestamp ≡ time
    → erase_from_set (some t) ((time, id) ∷ s) ≡ ok s
unfolding erase_from_set erase_age
erase_first time id s t e = ground arith

-- Where the youngest transaction stands first in the set, its abort succeeds, takes it from the set
-- and keeps the rest in order.
pub abort_youngest :
    (time id : ℤ) (s : AgeSet) (tm : TransactionManager)
    → tm.transactions_set ≡ (time, id) ∷ s
    → Breakable tm
    → (tm' : TransactionManager) × (abort_transaction id tm ≡ ok (tt, tm'))
      × (tm'.transactions_set ≡ s)
      × Breakable tm'
unfolding abort_transaction evict_transaction drop_blocked release print
abort_youngest time id s tm e b =
    let ((t, found, y), a) = subst (Aged tm.transactions) e b.aged in
    let (bef, desc) = subst Descending e b.descending in
    let (l, m, r) =
      release_locks_total id tm.lock_manager tm.site_manager (λ x sid h k. b.there id x sid h k) in
    let (_, table, graph) = release_locks-eq-ok id tm.lock_manager tm.site_manager r in
    let out : erase_from_set (find id tm.transactions) tm.transactions_set ≡ ok s =
      rw (found, e) (erase_first time id s t y) in
    (
      record tm {
        transactions_set = s;
        transactions = erase id tm.transactions;
        blocked_transactions_queue = erase id tm.blocked_transactions_queue;
        lock_manager = l;
        site_manager = m;
        log = (tm.curr_timestamp, aborted id) ∷ tm.log;
      },
      ground arith,
      refl,
      record {
        aged = Before-ne time id s tm.transactions t found y a bef;
        descending = desc;
        waiters = λ u h.
            let (ne, before) =
              release_waiters_waiting u id tm.lock_manager.wait_for_graph
                (sym (ap (is_waiting u) graph) ∙ h) in
            let old : mem u (ids ((time, id) ∷ s)) ≡ true =
              subst (λ z. mem u (ids z) ≡ true) e (b.waiters u before) in
            ground arith;
        there = λ u x sid h k.
            SameFor-present id (copy sid x tm.site_manager) (copy sid x m)
              ((release_locks_frees id tm.lock_manager tm.site_manager r).1 sid x)
            ∙ b.there u x sid
                (ground (
                  arith,
                  table,
                  find-erase_ne u id tm.lock_manager.lock_table,
                  find-erase_self id tm.lock_manager.lock_table,
                ))
                k;
      },
    )
