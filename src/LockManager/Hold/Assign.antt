-- ===== src/LockManager/Hold/Assign.antt =====
-- `assign_write_lock` and `assign_share_lock` at sites where nobody else holds a lock.
use rep_crec.Base.{◌≡◌, subst, sym, inl, inr, [], ◌∷◌, ℤ, Map, Set, arith, ok, >>=-eq-ok}
use rep_crec.Variable.{Variable, add_shared_transaction}
use rep_crec.SiteManager.{SiteManager}
use rep_crec.Transaction.{Transaction}
use rep_crec.LockManager.Assign.{
  Locks, lock_exclusive, write_lock_at, assign_write_lock, share_lock_at, assign_share_lock,
}
use rep_crec.LockManager.Hold.{LockInv, Ours}
use rep_crec.LockManager.Hold.Take.{
  Gives, Round, lock_exclusive-Gives, add_shared-Gives, taken-LockInv, taken-Ours,
  write_lock_at-Round, share_lock_at-Round,
}

abbrev pub LocksInv : Map Transaction → Locks → Type 0
LocksInv transactions ls = LockInv (ls.0.lock_table) transactions ls.1

module _ (transactions : Map Transaction) (t x : ℤ) where
  module _ (f : Variable → Variable) (gives : Gives t f) where
    tail : (sid : ℤ) (sids : Set) (m : SiteManager) → Ours t (sid ∷ sids) x m → Ours t sids x m
    tail sid sids m o = (λ k u m h. o.0 k u (ground arith) h, λ k m. o.1 k (ground arith))

    Round-keeps :
        (sid : ℤ) (sids : Set) (ls ls' : Locks)
        → Round t x sid f transactions ls ls'
        → Ours t (sid ∷ sids) x ls.1
        → LocksInv transactions ls
        → LocksInv transactions ls' × Ours t sids x ls'.1
    Round-keeps sid sids ls ls' (inl p) o i =
        subst (λ y. LocksInv transactions y × Ours t sids x y.1) (sym p) (i, tail sid sids ls.1 o)
    Round-keeps sid sids ls ls' (inr (here, e, p)) o i = (
      subst (λ y. LockInv y transactions ls'.1) (sym p)
          (taken-LockInv t x f gives sid ls.1 e ls.0.lock_table transactions here
            (λ u h. o.0 sid u (ground arith) h) (o.1 sid (ground arith)) i),
      taken-Ours t x f gives sid ls.1 e sids (tail sid sids ls.1 o),
    )

  pub assign_write_lock-LocksInv :
      (sids : Set) (ls ls' : Locks)
      → assign_write_lock transactions t sids x ls ≡ ok ls'
      → Ours t sids x ls.1
      → LocksInv transactions ls
      → LocksInv transactions ls'
  unfolding assign_write_lock
  assign_write_lock-LocksInv [] ls ls' e o i =
      let p : ls ≡ ls' = cc in subst (LocksInv transactions) p i
  assign_write_lock-LocksInv (sid ∷ sids) ls ls' e o i =
      let (n, first, rest) =
        >>=-eq-ok (write_lock_at transactions t x sid ls)
          (λ n. assign_write_lock transactions t sids x n) e in
      let (j, o') =
        Round-keeps (lock_exclusive t) (lock_exclusive-Gives t) sid sids ls n
          (write_lock_at-Round transactions t x sid ls n first) o i in
      assign_write_lock-LocksInv sids n ls' rest o' j

  pub assign_share_lock-LocksInv :
      (sids : Set) (ls ls' : Locks)
      → assign_share_lock transactions t sids x ls ≡ ok ls'
      → Ours t sids x ls.1
      → LocksInv transactions ls
      → LocksInv transactions ls'
  unfolding assign_share_lock
  assign_share_lock-LocksInv [] ls ls' e o i =
      let p : ls ≡ ls' = cc in subst (LocksInv transactions) p i
  assign_share_lock-LocksInv (sid ∷ sids) ls ls' e o i =
      let (n, first, rest) =
        >>=-eq-ok (share_lock_at transactions t x sid ls)
          (λ n. assign_share_lock transactions t sids x n) e in
      let (j, o') =
        Round-keeps (λ v. (add_shared_transaction t v).0) (add_shared-Gives t) sid sids ls n
          (share_lock_at-Round transactions t x sid ls n first) o i in
      assign_share_lock-LocksInv sids n ls' rest o' j
