-- ===== src/LockManager/Release.antt =====
-- Giving up all locks of a transaction, and its place in the wait-for graph: `release_locks`.
pub mod Unlock
pub mod Waiters
pub mod Wake
pub mod Frees
pub mod Sites
use rep_crec.Base.{
  List, [], ◌∷◌, ℤ, Map, Set, find_or, erase, remove, if◌then◌else◌, Result, ok, ◌>>=◌,
}
use rep_crec.Global.{is_odd, home_site}
use rep_crec.Variable.{
  Variable, has_shared_lock, has_exclusive_lock, remove_shared_owner, remove_exclusive_owner,
}
use rep_crec.SiteManager.{SiteManager, site_ids, on_copy}
use rep_crec.LockManager.{is_empty}
use rep_crec.LockManager.Assign.{Locks}

unfoldable pub unlock : ℤ → Variable → Variable
unlock tran_id v =
    let v' = if has_exclusive_lock tran_id v then remove_exclusive_owner v else v in
    if has_shared_lock tran_id v' then (remove_shared_owner tran_id v').0 else v'

unfoldable pub unlock_at : ℤ → ℤ → List ℤ → SiteManager → Result SiteManager
unfolding unlock
unlock_at tran_id vid [] sites = ok sites
unlock_at tran_id vid (sid ∷ sids) sites = do
  sites' ← on_copy sid vid (unlock tran_id) sites
  unlock_at tran_id vid sids sites'

unfoldable pub unlock_all : ℤ → Set → SiteManager → Result SiteManager
unfolding unlock_at site_ids
unlock_all tran_id [] sites = ok sites
unlock_all tran_id (vid ∷ vids) sites = do
  sites' ← unlock_at tran_id vid (if is_odd vid then home_site vid ∷ [] else site_ids) sites
  unlock_all tran_id vids sites'

-- The transactions left with nobody to wait for. The source takes the released one out of a copy of
-- the set: the set in the graph keeps it.
unfoldable pub emptied : ℤ → Map Set → Set
emptied tran_id [] = []
emptied tran_id ((tid, tids) ∷ g) =
    let rest = emptied tran_id g in if is_empty (remove tran_id tids) then tid ∷ rest else rest

unfoldable pub erase_all : Set → Map Set → Map Set
erase_all [] g = g
erase_all (tid ∷ tids) g = erase_all tids (erase tid g)

unfoldable pub release_waiters : ℤ → Map Set → Map Set
unfolding emptied erase_all
release_waiters tran_id g = erase tran_id (erase_all (emptied tran_id g) g)

unfoldable pub release_locks : ℤ → Locks → Result Locks
unfolding unlock_all release_waiters
release_locks tran_id (l, sites) = do
  sites' ← unlock_all tran_id (find_or [] tran_id l.lock_table) sites
  ok (
    record {
      lock_table = erase tran_id l.lock_table;
      wait_for_graph = release_waiters tran_id l.wait_for_graph;
    },
    sites',
  )
