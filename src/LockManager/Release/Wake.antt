-- ===== src/LockManager/Release/Wake.antt =====
-- Who is woken when a transaction gives up its locks.
use rep_crec.Base.{false, ◌≡◌, ap, ◌∙◌, some, [], ℤ, Set, find, remove, IsMap, arith, ok}
use rep_crec.LockManager.{LockManager, is_waiting, is_waiting_for_lock}
use rep_crec.LockManager.Release.{release_locks}
use rep_crec.LockManager.Release.Waiters.{release_waiters-is_waiting}
use rep_crec.LockManager.Hold.Release.{release_locks-eq-ok}
use rep_crec.SiteManager.{SiteManager}

-- A transaction that waits for nobody but one other is free to run once this one has released its
-- locks, given that no key stands twice in the wait-for graph.
pub release_locks_wakes :
    (u t : ℤ) (owners : Set) (l : LockManager) (sites : SiteManager) {l' : LockManager}
    {sites' : SiteManager}
    → IsMap l.wait_for_graph
    → find u l.wait_for_graph ≡ some owners
    → remove t owners ≡ []
    → release_locks t (l, sites) ≡ ok (l', sites')
    → is_waiting_for_lock u l' ≡ false
unfolding is_waiting_for_lock
release_locks_wakes u t owners l sites d f r e =
    ap (is_waiting u) (release_locks-eq-ok t l sites e).2
    ∙ release_waiters-is_waiting u t l.wait_for_graph d
    ∙ ground arith
