-- ===== src/TransactionManager/Abort.antt =====
-- What `abort_transaction` leaves of a transaction.
use rep_crec.LockManager.Release.Frees.{
  release_locks_frees, release_locks-is_waiting_for_lock, IsUnlocked, SameFor, sites_of,
}
use rep_crec.SiteManager.Copies.{copy}
use rep_crec.LockManager.{is_empty}
use rep_crec.Transaction.{Transaction}
use rep_crec.Base.{
  Bool, ◌&&◌, ◌||◌, ◌==ℤ◌, Map, Set, contains, remove, find_or, find-erase_ne, find-erase_self,
  find, none, mem, true, false, [], ℤ, ◌≢◌, inl, inr, Result-cases, ◌≡◌, ◌∷◌, erase, arith, ok, err,
}
use rep_crec.LockManager.{is_waiting_for_lock, LockManager}
use rep_crec.LockManager.Release.{release_locks}
use rep_crec.SiteManager.{SiteManager}
use rep_crec.Request.{aborted}
use rep_crec.TransactionManager.{
  TransactionManager, AgeSet, abort_transaction, evict_transaction, erase_from_set, drop_blocked,
  release, print,
}

-- The parts of a successful abort.
pub abort_transaction-eq-ok :
    (t : ℤ) (tm : TransactionManager) {tm' : TransactionManager}
    → abort_transaction t tm ≡ ok (tt, tm')
    → (s : AgeSet) × (l : LockManager) × (sites : SiteManager) × (erase_from_set
          (find t tm.transactions)
          tm.transactions_set
        ≡ ok s)
      × (release_locks t (tm.lock_manager, tm.site_manager) ≡ ok (l, sites))
      × (tm' ≡ record tm {
        transactions_set = s;
        transactions = erase t tm.transactions;
        blocked_transactions_queue = erase t tm.blocked_transactions_queue;
        lock_manager = l;
        site_manager = sites;
        log = (tm.curr_timestamp, aborted t) ∷ tm.log;
      })
unfolding abort_transaction evict_transaction drop_blocked release print
abort_transaction-eq-ok t tm {tm'} e =
    elim (Result-cases (erase_from_set (find t tm.transactions) tm.transactions_set)) [
      | inr (x, e1) ↦ absurd (let h : abort_transaction t tm ≡ err x = ground arith in cc)
      | inl (s, e1) ↦ elim (Result-cases (release_locks t (tm.lock_manager, tm.site_manager))) [
        | inr (x, e2) ↦ absurd (let h : abort_transaction t tm ≡ err x = ground arith in cc)
        | inl (ls, e2) ↦ (s, ls.0, ls.1, e1, e2, ground arith)
      ]
    ]

-- What an abort takes away, and that the other transactions and their blocked requests stay.
pub abort_transaction_removes :
    (t : ℤ) (tm : TransactionManager) {tm' : TransactionManager}
    → abort_transaction t tm ≡ ok (tt, tm')
    → (find t tm'.transactions ≡ none)
      × (find t tm'.blocked_transactions_queue ≡ none)
      × (is_waiting_for_lock t tm'.lock_manager ≡ false)
      × (find t tm'.lock_manager.lock_table ≡ none)
      × ((vid sid : ℤ)
          → mem vid (find_or [] t tm.lock_manager.lock_table) ≡ true
          → mem sid (sites_of vid) ≡ true
          → IsUnlocked t (copy sid vid tm'.site_manager))
      × ((u : ℤ)
          → u ≢ t
          → (find u tm'.transactions ≡ find u tm.transactions)
            × (find u tm'.blocked_transactions_queue ≡ find u tm.blocked_transactions_queue))
      × ((a b : ℤ) → SameFor t (copy a b tm.site_manager) (copy a b tm'.site_manager))
abort_transaction_removes t tm {tm'} e =
    let (s, l, sites, e1, e2, p) = abort_transaction-eq-ok t tm e in
    let (frees, same, listed) = release_locks_frees t tm.lock_manager tm.site_manager e2 in
    rw p (
      find-erase_self t tm.transactions,
      find-erase_self t tm.blocked_transactions_queue,
      release_locks-is_waiting_for_lock t tm.lock_manager tm.site_manager e2,
      listed,
      frees,
      λ u h.
          (find-erase_ne u t tm.transactions h, find-erase_ne u t tm.blocked_transactions_queue h),
      same,
    )

-- Whether the set has this entry.
abbrev pub listed_at : ℤ → ℤ → AgeSet → Bool
listed_at time id [] = false
listed_at time id ((u, k) ∷ s) = (time ==ℤ u && id ==ℤ k) || listed_at time id s

-- Whether the transaction waits, if it is in the graph at all, for nobody but the other one.
abbrev pub waits_only : ℤ → ℤ → Map Set → Bool
waits_only u t g = contains u g && is_empty (remove t (find_or [] u g))
