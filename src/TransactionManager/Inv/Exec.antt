-- ===== src/TransactionManager/Inv/Exec.antt =====
-- Every request keeps the invariant of the locks.
use rep_crec.Base.{
  Bool, false, not, ◌≡◌, refl, [], ◌∷◌, ℤ, minus_one, pos, ◌+ℤ◌, Set, if◌then◌else◌,
}
use rep_crec.Global.{is_odd}
use rep_crec.Site.{Site, set_read_available, set_write_available}
use rep_crec.Site
use rep_crec.SiteManager.{dump}
use rep_crec.Transaction.{Transaction, new_transaction}
use rep_crec.Request.{
  Request, Kind, created, committed, commit_failed, site_failed, site_recovered, dumped,
}
use rep_crec.Request.Exec.{
  exec_create, exec_end, exec_dump, exec_fail, exec_recovery, exec, change_site, abort_all, writers,
}
use rep_crec.TransactionManager.{
  ◌>>◌, asks, gets, pure, get_transaction, add_transaction, remove_from_site_waiting_map,
  abort_transaction, release, evict_transaction,
}
use rep_crec.TransactionManager.Commit.{commit, writes_available, reads_available}
use rep_crec.TransactionManager.Triple.{
  Triple, Triple_bind, Triple_then, Triple_if, Triple_pure, Triple_asks, Triple_gets, Triple_modify,
}
use rep_crec.TransactionManager.Inv.{Inv, print-Inv, insert-Inv}
use rep_crec.TransactionManager.Inv.Abort.{abort_transaction-Inv, release-Unlisted, evict-Inv}
use rep_crec.TransactionManager.Inv.Sites.{change_site-Inv, apply_writes-Inv}
use rep_crec.TransactionManager.Inv.Write.{exec_write-Inv}
use rep_crec.TransactionManager.Inv.Read.{exec_read-Inv, get_transaction_keeps}

exec_create-Inv :
    (timestamp t : ℤ) (is_read_only : Bool) → Triple Inv (exec_create timestamp t is_read_only) Inv
unfolding exec_create add_transaction
exec_create-Inv timestamp t is_read_only =
    Triple_then (add_transaction t (new_transaction t timestamp is_read_only))
      (Triple_modify (λ tm i. insert-Inv t (new_transaction t timestamp is_read_only) tm i))
      (Triple_modify {f = λ tm. record tm { log = (timestamp, created t) ∷ tm.log }} (λ tm i. i))

refuses : (t : ℤ) → Triple Inv (abort_transaction t >> pure false) Inv
refuses t = Triple_then (abort_transaction t) (abort_transaction-Inv t) (Triple_pure false)

pub commit-Inv : (time : ℤ) (t : Transaction) → Triple Inv (commit time t) Inv
unfolding commit
commit-Inv time t =
    Triple_bind (asks (λ tm. writes_available t.write_accessed_sites tm.site_manager))
      (Triple_asks (λ tm. writes_available t.write_accessed_sites tm.site_manager))
      λ written. Triple_if (not written) (refuses t.transaction_id) (
        Triple_bind (asks (λ tm. reads_available t.read_accessed_sites tm.site_manager))
          (Triple_asks (λ tm. reads_available t.read_accessed_sites tm.site_manager))
          λ readable. Triple_if (not readable) (refuses t.transaction_id) (apply_writes-Inv time t))

exec_end-Inv : (timestamp t : ℤ) → Triple Inv (exec_end timestamp t) Inv
unfolding exec_end
exec_end-Inv timestamp t = Triple_bind (get_transaction t) (get_transaction_keeps t) λ tran.
    Triple_bind (commit timestamp tran) (commit-Inv timestamp tran) λ done.
      Triple_if done
        (Triple_then (release t) (release-Unlisted t)
          (Triple_then (evict_transaction t) (evict-Inv t) (print-Inv (committed t))))
        (print-Inv (commit_failed t))

exec_dump-Inv : Triple Inv exec_dump Inv
unfolding exec_dump
exec_dump-Inv =
    Triple_bind (gets (λ tm. dump tm.site_manager)) (Triple_gets (λ tm. dump tm.site_manager))
      λ rows. print-Inv (dumped rows)

abort_all-Inv : (ts : Set) → Triple Inv (abort_all ts) Inv
unfolding abort_all
abort_all-Inv [] = Triple_pure tt
abort_all-Inv (t ∷ ts) =
    Triple_then (abort_transaction t) (abort_transaction-Inv t) (abort_all-Inv ts)

pub down_keeps : (s : Site) → (Site.set_unavailable s).variables ≡ s.variables
unfolding Site.set_unavailable
down_keeps s = refl

pub up_keeps : (s : Site) → (set_write_available s).variables ≡ s.variables
unfolding set_write_available
up_keeps s = refl

pub readable_keeps : (x : ℤ) (s : Site) → (set_read_available x s).variables ≡ s.variables
unfolding set_read_available
readable_keeps x s = refl

exec_fail-Inv : (k : ℤ) → Triple Inv (exec_fail k) Inv
unfolding exec_fail
exec_fail-Inv k =
    Triple_bind (gets (λ tm. tm.transactions)) (Triple_gets (λ tm. tm.transactions)) λ ts.
      Triple_then (change_site k Site.set_unavailable)
        (change_site-Inv k Site.set_unavailable down_keeps)
        (Triple_then (abort_all (writers k ts [])) (abort_all-Inv (writers k ts []))
          (print-Inv (site_failed k)))

makes_readable : (k x : ℤ) → Triple Inv (change_site k (set_read_available x)) Inv
makes_readable k x = change_site-Inv k (set_read_available x) (readable_keeps x)

exec_recovery-Inv : (k : ℤ) → Triple Inv (exec_recovery k) Inv
unfolding exec_recovery remove_from_site_waiting_map
exec_recovery-Inv k =
    let x = k +ℤ minus_one in
    let y = x +ℤ pos 10 in
    Triple_then (change_site k set_write_available) (change_site-Inv k set_write_available up_keeps)
      (Triple_then
        (if is_odd x
          then change_site k (set_read_available x) >> change_site k (set_read_available y)
          else pure tt)
        (Triple_if (is_odd x)
          (Triple_then (change_site k (set_read_available x)) (makes_readable k x)
            (makes_readable k y))
          (Triple_pure tt))
        (Triple_then (remove_from_site_waiting_map k) (Triple_modify (λ tm i. i))
          (print-Inv (site_recovered k))))

pub exec-Inv : (r : Request) → Triple Inv (exec r) Inv
unfolding exec
exec-Inv r = kind r.kind
  where
    kind : (k : Kind) → Triple Inv (exec (record r { kind = k })) Inv
    kind (Kind.write value) = exec_write-Inv r.timestamp r.tran_id r.var_id value
    kind Kind.read = exec_read-Inv r.tran_id r.var_id r.timestamp
    kind (Kind.create is_read_only) = exec_create-Inv r.timestamp r.tran_id is_read_only
    kind Kind.end = exec_end-Inv r.timestamp r.tran_id
    kind Kind.dump = exec_dump-Inv
    kind Kind.fail = exec_fail-Inv r.site_id
    kind Kind.recovery = exec_recovery-Inv r.site_id
