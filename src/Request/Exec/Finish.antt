-- ===== src/Request/Exec/Finish.antt =====
-- The end of a transaction.
use rep_crec.Base.{
  Bool, false, ◌≡◌, sym, subst, inl, inr, some, none, ℤ, find, find-erase_self, arith, ok,
  if◌then◌else◌,
}
use rep_crec.Transaction.{Transaction}
use rep_crec.LockManager.Release.{release_locks}
use rep_crec.LockManager.Hold.{locked}
use rep_crec.LockManager.Hold.Release.{release_locks-locked}
use rep_crec.Request.{Message, committed, commit_failed}
use rep_crec.Request.Exec.{exec_end}
use rep_crec.TransactionManager.{
  TransactionManager, ◌>>=◌, ◌>>◌, asks, print, get_transaction, lookup_transaction, release,
  evict_transaction, erase_from_set, abort_transaction, bind-eq-ok,
}
use rep_crec.TransactionManager.Abort.{abort_transaction-eq-ok}
use rep_crec.TransactionManager.Commit.{commit}
use rep_crec.TransactionManager.Commit.Atomic.{commit_cases}
use rep_crec.TransactionManager.Triple.{
  Triple, Triple_bind, Triple_bind_asks, Triple_then, Triple_asks, Triple_modify,
}
use rep_crec.TransactionManager.Inv.{Inv}
use rep_crec.TransactionManager.Inv.Exec.{commit-Inv}

-- The transaction holds no lock anywhere.
abbrev pub Freed : ℤ → TransactionManager → Type 0
Freed t tm = (a b : ℤ) → locked t a b tm.site_manager ≡ false

-- Nor is it known any more.
abbrev pub Gone : ℤ → TransactionManager → Type 0
Gone t tm = (find t tm.transactions ≡ none) × Freed t tm

release-Freed : (t : ℤ) → Triple Inv (release t) (Freed t)
unfolding release
release-Freed t =
    Triple_bind_asks (λ tm. release_locks t (tm.lock_manager, tm.site_manager))
      λ ls. Triple_modify (λ tm p a b.
        release_locks-locked t tm.lock_manager tm.site_manager p.1 tm.transactions p.0 a b)

evict-Gone : (t : ℤ) → Triple (Freed t) (evict_transaction t) (Gone t)
unfolding evict_transaction
evict-Gone t =
    Triple_bind (asks (λ tm. erase_from_set (find t tm.transactions) tm.transactions_set))
      (Triple_asks (λ tm. erase_from_set (find t tm.transactions) tm.transactions_set))
      λ s. Triple_modify (λ tm p. (find-erase_self t tm.transactions, p))

print-Gone : (t : ℤ) (m : Message) → Triple (Gone t) (print m) (Gone t)
unfolding print
print-Gone t m = Triple_modify (λ tm p. p)

abort-Gone : (t : ℤ) → Triple Inv (abort_transaction t) (Gone t)
abort-Gone t = record {
  run = λ tm tm' a e i.
      let (s, l, sites, _, e2, p) = abort_transaction-eq-ok t tm e in
      subst (Gone t) (sym p) (
        find-erase_self t tm.transactions,
        release_locks-locked t tm.lock_manager tm.site_manager e2 tm.transactions i,
      );
}

-- The end of a transaction, where it succeeds, commits or aborts it: either way the transaction is
-- known no longer and holds no lock anywhere. Given are the invariant of the locks, and that the
-- transaction is known under its own number.
pub exec_end-Gone :
    (timestamp t : ℤ) (tran : Transaction) (tm : TransactionManager) {tm' : TransactionManager}
    → Inv tm
    → find t tm.transactions ≡ some tran
    → tran.transaction_id ≡ t
    → exec_end timestamp t tm ≡ ok (tt, tm')
    → Gone t tm'
unfolding exec_end get_transaction lookup_transaction
exec_end-Gone timestamp t tran tm {tm'} i known own e =
    let finish = λ (done : Bool).
      if done
      then release t >> (evict_transaction t >> print (committed t))
      else print (commit_failed t) in
    let e1 : (commit timestamp tran >>= finish) tm ≡ ok (tt, tm') = ground arith in
    let (done, n, first, rest) = bind-eq-ok (commit timestamp tran) finish tm e1 in
    elim (commit_cases timestamp tran tm first) [
      | inl (p, ab) ↦
          let g : Gone t n =
            (abort-Gone t).run tm n tt (subst (λ k. abort_transaction k tm ≡ ok (tt, n)) own ab)
              i in
          (print-Gone t (commit_failed t)).run n tm' tt (ground arith) g
      | inr (p, _) ↦
          (Triple_then (release t) (release-Freed t)
              (Triple_then (evict_transaction t) (evict-Gone t) (print-Gone t (committed t)))).run
            n tm' tt (ground arith) ((commit-Inv timestamp tran).run tm n done first i)
    ]
