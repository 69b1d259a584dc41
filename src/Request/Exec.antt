-- ===== src/Request/Exec.antt =====
-- The other requests' `exec`, and the dynamic call of `exec`.
pub mod Fail
pub mod Recover
pub mod Down
pub mod Finish
use rep_crec.Base.{Bool, [], ◌∷◌, ℤ, pos, minus_one, ◌+ℤ◌, if◌then◌else◌, add, ok, Map, Set}
use rep_crec.Global.{is_odd}
use rep_crec.Site.{set_write_available, set_read_available}
use rep_crec.Site
use rep_crec.SiteManager.{on_site, dump}
use rep_crec.SiteManager
use rep_crec.Transaction.{Transaction, new_transaction, is_written_into_site}
use rep_crec.Request.{
  Request, Kind, created, committed, commit_failed, site_failed, site_recovered, dumped,
}
use rep_crec.Request.Write.{exec_write}
use rep_crec.Request.Read.{exec_read}
use rep_crec.TransactionManager.Commit.{commit}
use rep_crec.TransactionManager.{
  Action, Done, ◌>>=◌, ◌>>◌, pure, asks, gets, modify, print, add_transaction, get_transaction,
  evict_transaction, release, abort_transaction, remove_from_site_waiting_map,
}

-- Printed with the time of the request.
unfoldable pub exec_create : ℤ → ℤ → Bool → Action Done
unfolding add_transaction
exec_create timestamp tran_id is_read_only = do
  add_transaction tran_id (new_transaction tran_id timestamp is_read_only)
  modify (λ tm. record tm { log = (timestamp, created tran_id) ∷ tm.log })

unfoldable pub exec_end : ℤ → ℤ → Action Done
unfolding get_transaction commit release evict_transaction print
exec_end timestamp tran_id = do
  t ← get_transaction tran_id
  done ← commit timestamp t
  if done
      then (do release tran_id; evict_transaction tran_id; print (committed tran_id))
      else print (commit_failed tran_id)

unfoldable pub exec_dump : Action Done
unfolding dump print
exec_dump = gets (λ tm. dump tm.site_manager) >>= λ rows. print (dumped rows)

-- The transactions that wrote at the site, put into a set one by one.
unfoldable pub writers : ℤ → Map Transaction → Set → Set
writers site_id [] tids = tids
writers site_id ((tid, t) ∷ ts) tids =
    writers site_id ts (if is_written_into_site site_id t then add tid tids else tids)

unfoldable pub abort_all : Set → Action Done
unfolding abort_transaction
abort_all [] = pure tt
abort_all (tid ∷ tids) = abort_transaction tid >> abort_all tids

unfoldable pub change_site : ℤ → (Site.Site → Site.Site) → Action Done
change_site site_id f = asks (λ tm. on_site site_id (λ s. ok (f s)) tm.site_manager) >>= λ sites.
    modify λ tm. record tm { site_manager = sites }

unfoldable pub exec_fail : ℤ → Action Done
unfolding change_site writers abort_all print
exec_fail site_id = do
  transactions ← gets (λ tm. tm.transactions)
  change_site site_id Site.set_unavailable
  abort_all (writers site_id transactions [])
  print (site_failed site_id)

unfoldable pub exec_recovery : ℤ → Action Done
unfolding change_site remove_from_site_waiting_map print
exec_recovery site_id = do
  change_site site_id set_write_available
  let unique_id_1 = site_id +ℤ minus_one
  let unique_id_2 = unique_id_1 +ℤ pos 10
  if is_odd unique_id_1
      then change_site site_id (set_read_available unique_id_1)
        >> change_site site_id (set_read_available unique_id_2)
      else pure tt
  remove_from_site_waiting_map site_id
  print (site_recovered site_id)

unfoldable pub exec : Request → Action Done
unfolding exec_write exec_read exec_create exec_end exec_dump exec_fail exec_recovery
exec r = elim r.kind [
  | Kind.write value ↦ exec_write r.timestamp r.tran_id r.var_id value
  | Kind.read ↦ exec_read r.timestamp r.tran_id r.var_id
  | Kind.create is_read_only ↦ exec_create r.timestamp r.tran_id is_read_only
  | Kind.end ↦ exec_end r.timestamp r.tran_id
  | Kind.dump ↦ exec_dump
  | Kind.fail ↦ exec_fail r.site_id
  | Kind.recovery ↦ exec_recovery r.site_id
]
