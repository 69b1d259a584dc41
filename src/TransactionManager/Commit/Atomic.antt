-- ===== src/TransactionManager/Commit/Atomic.antt =====
-- `commit` installs the whole of a transaction or aborts it.
use rep_crec.Base.{
  Bool, ◌⊎◌, find, none, true, false, ℤ, inl, inr, Result-cases, ◌≡◌, arith, ok, err,
}
use rep_crec.LockManager.Release.Frees.{SameFor}
use rep_crec.SiteManager.Copies.{copy}
use rep_crec.Transaction.{Transaction}
use rep_crec.TransactionManager.{◌>>◌, pure, TransactionManager, abort_transaction}
use rep_crec.TransactionManager.Abort.{abort_transaction_removes}
use rep_crec.TransactionManager.Commit.{
  commit, writes_available, reads_available, apply_records, apply_writes,
}

-- The two ways in which a commit succeeds.
abbrev pub IsCommitted : ℤ → Transaction → TransactionManager → TransactionManager → Type 0
IsCommitted time t tm tm' =
    (writes_available t.write_accessed_sites tm.site_manager ≡ ok true)
    × (reads_available t.read_accessed_sites tm.site_manager ≡ ok true)
    × (apply_records time t.write_records tm.site_manager ≡ ok tm'.site_manager)
    × (tm' ≡ record tm { site_manager = tm'.site_manager })

aborts_lem :
    (time : ℤ) (t : Transaction) (tm : TransactionManager) {b : Bool} {tm' : TransactionManager}
    → commit time t tm ≡ (abort_transaction t.transaction_id >> pure false) tm
    → commit time t tm ≡ ok (b, tm')
    → (b ≡ false) × (abort_transaction t.transaction_id tm ≡ ok (tt, tm'))
aborts_lem time t tm {b} {tm'} h e = elim (Result-cases (abort_transaction t.transaction_id tm)) [
  | inr (x, p) ↦ absurd (let k : commit time t tm ≡ err x = ground arith in cc)
  | inl ((u, m), p) ↦ (ground arith, ground arith)
]

pub commit_cases :
    (time : ℤ) (t : Transaction) (tm : TransactionManager) {b : Bool} {tm' : TransactionManager}
    → commit time t tm ≡ ok (b, tm')
    → ((b ≡ false) × (abort_transaction t.transaction_id tm ≡ ok (tt, tm')))
      ⊎ ((b ≡ true) × IsCommitted time t tm tm')
unfolding commit apply_writes
commit_cases time t tm {b} {tm'} e =
    elim (Result-cases (writes_available t.write_accessed_sites tm.site_manager)) [
      | inr (x, w) ↦ absurd (let h : commit time t tm ≡ err x = ground arith in cc)
      | inl (false, w) ↦ inl (aborts_lem time t tm (ground arith) e)
      | inl (true, w) ↦
          elim (Result-cases (reads_available t.read_accessed_sites tm.site_manager)) [
            | inr (x, r) ↦ absurd (let h : commit time t tm ≡ err x = ground arith in cc)
            | inl (false, r) ↦ inl (aborts_lem time t tm (ground arith) e)
            | inl (true, r) ↦
                elim (Result-cases (apply_records time t.write_records tm.site_manager)) [
                  | inr (x, p) ↦ absurd (let h : commit time t tm ≡ err x = ground arith in cc)
                  | inl (m, p) ↦ inr (ground arith, (w, r, ground arith, ground arith))
                ]
          ]
    ]

-- A commit that is refused installs nothing: the transaction is known no longer, and no copy changes
-- but for the locks of the transaction.
pub commit_refused :
    (time : ℤ) (t : Transaction) (tm : TransactionManager) {tm' : TransactionManager}
    → commit time t tm ≡ ok (false, tm')
    → (find t.transaction_id tm'.transactions ≡ none)
      × ((a b : ℤ)
          → SameFor t.transaction_id (copy a b tm.site_manager) (copy a b tm'.site_manager))
commit_refused time t tm e = elim (commit_cases time t tm e) [
  | inr (p, _) ↦ absurd cc
  | inl (_, p) ↦
      let (gone, _, _, _, _, _, same) = abort_transaction_removes t.transaction_id tm p in
      (gone, same)
]
