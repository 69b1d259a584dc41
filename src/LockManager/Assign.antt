-- ===== src/LockManager/Assign.antt =====
-- Taking a lock that was found free: `assign_write_lock` and `assign_share_lock`.
pub mod Locks
pub mod Graph
use rep_crec.Base.{
  [], ◌∷◌, ℤ, Map, Set, find, if◌then◌else◌, Result, ok, or_fail, out_of_range, ◌>>=◌, ◌>>◌,
}
use rep_crec.Variable.{
  Variable, has_shared_lock, remove_shared_owner, set_exclusive_transaction, add_shared_transaction,
}
use rep_crec.Site.{is_read_available, is_write_available, deref_variable, put_variable}
use rep_crec.SiteManager.{SiteManager, get_site, put_site}
use rep_crec.Transaction.{Transaction}
use rep_crec.LockManager.{LockManager, insert_at}

abbrev pub Locks : Type 0
Locks = LockManager × SiteManager

-- `lock_table_[tran_id].insert(var_id)`
unfoldable pub note_lock : ℤ → ℤ → LockManager → LockManager
note_lock tran_id var_id l = record l { lock_table = insert_at tran_id var_id l.lock_table }

-- A shared lock of the transaction's own gives way to the exclusive one.
unfoldable pub lock_exclusive : ℤ → Variable → Variable
lock_exclusive tran_id v =
    let v' = if has_shared_lock tran_id v then (remove_shared_owner tran_id v).0 else v in
    (set_exclusive_transaction tran_id v').0

-- One round; `get_transaction` throws for an unknown transaction.
unfoldable pub write_lock_at : Map Transaction → ℤ → ℤ → ℤ → Locks → Result Locks
unfolding note_lock lock_exclusive
write_lock_at transactions tran_id var_id site_id (l, sites) = do
  s ← get_site site_id sites
  if is_write_available s
      then (do
        v ← deref_variable var_id s
        or_fail (find tran_id transactions) out_of_range
        ok (
          note_lock tran_id var_id l,
          put_site site_id (put_variable var_id (lock_exclusive tran_id v) s) sites,
        ))
      else ok (l, sites)

unfoldable pub assign_write_lock : Map Transaction → ℤ → Set → ℤ → Locks → Result Locks
unfolding write_lock_at
assign_write_lock transactions tran_id [] var_id ls = ok ls
assign_write_lock transactions tran_id (site_id ∷ site_id_set) var_id ls = do
  ls' ← write_lock_at transactions tran_id var_id site_id ls
  assign_write_lock transactions tran_id site_id_set var_id ls'

unfoldable pub share_lock_at : Map Transaction → ℤ → ℤ → ℤ → Locks → Result Locks
unfolding note_lock
share_lock_at transactions tran_id var_id site_id (l, sites) = do
  s ← get_site site_id sites
  if is_read_available var_id s
      then (do
        v ← deref_variable var_id s
        or_fail (find tran_id transactions) out_of_range
        ok (
          note_lock tran_id var_id l,
          put_site site_id (put_variable var_id (add_shared_transaction tran_id v).0 s) sites,
        ))
      else ok (l, sites)

unfoldable pub assign_share_lock : Map Transaction → ℤ → Set → ℤ → Locks → Result Locks
unfolding share_lock_at
assign_share_lock transactions tran_id [] var_id ls = ok ls
assign_share_lock transactions tran_id (site_id ∷ site_id_set) var_id ls = do
  ls' ← share_lock_at transactions tran_id var_id site_id ls
  assign_share_lock transactions tran_id site_id_set var_id ls'
