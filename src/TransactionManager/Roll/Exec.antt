-- ===== src/TransactionManager/Roll/Exec.antt =====
-- Every request keeps the roll of the transactions, where a write is of a known transaction and a
-- new transaction is new and the youngest.
use rep_crec.Base.{
  true, false, Bool, ◌≡◌, ◌≢◌, refl, sym, ◌∙◌, subst, [], ◌∷◌, ℤ, minus_one, pos, ◌+ℤ◌, Map, Set,
  if◌then◌else◌, contains, insert, find-insert_self, find-insert_ne, ℤ_discrete, arith, ◌<ℤ◌,
}
use rep_crec.Global.{is_odd}
use rep_crec.Site.{set_read_available, set_write_available}
use rep_crec.Site
use rep_crec.SiteManager.{SiteManager, dump}
use rep_crec.Transaction.{Transaction, new_transaction}
use rep_crec.Request.{
  Request, Kind, Message, created, committed, commit_failed, site_failed, site_recovered, dumped,
}
use rep_crec.Request.Exec.{
  exec_create, exec_end, exec_dump, exec_fail, exec_recovery, exec, change_site, abort_all, writers,
}
use rep_crec.TransactionManager.{
  TransactionManager, AgeSet, Action, Done, ◌>>◌, gets, pure, print, get_transaction,
  add_transaction, insert_age, remove_from_site_waiting_map, release, evict_transaction,
}
use rep_crec.TransactionManager.Commit.{commit}
use rep_crec.TransactionManager.Triple.{
  Triple, Triple_bind, Triple_then, Triple_if, Triple_pure, Triple_gets, Triple_modify,
  Triple_weaken,
}
use rep_crec.TransactionManager.Inv.Exec.{down_keeps, up_keeps, readable_keeps}
use rep_crec.TransactionManager.Inv.Read.{get_transaction_keeps}
use rep_crec.TransactionManager.Deadlocks.{Aged, Before}
use rep_crec.TransactionManager.Roll.{RollInv, Roll}
use rep_crec.TransactionManager.Roll.Abort.{
  release-Idle, evict-Roll, abort_all-Roll, change_site-Roll, commit-Roll,
}
use rep_crec.TransactionManager.Roll.Write.{exec_write-Known}
use rep_crec.TransactionManager.Roll.Read.{exec_read-Roll}

print-Roll : (m : Message) → Triple Roll (print m) Roll
unfolding print
print-Roll m = Triple_modify (λ tm i. i)

-- A transaction that is not known yet, at a time after all others.
abbrev pub Fresh : ℤ → ℤ → TransactionManager → Type 0
Fresh timestamp t tm = (contains t tm.transactions ≡ false) × Before timestamp tm.transactions_set

insert_age-Before : (time t : ℤ) (s : AgeSet) → Before time s → insert_age time t s ≡ (time, t) ∷ s
unfolding insert_age
insert_age-Before time t [] b = refl
insert_age-Before time t ((u, k) ∷ s) (lt, b) = elim (ℤ_discrete time u) [
  | yes p ↦ absurd (let r : u <ℤ u = subst (λ y. u <ℤ y) p lt in omega arith)
  | no p ↦ ground arith
]

Aged-insert_new :
    (t : ℤ) (tran : Transaction) (ts : Map Transaction) (s : AgeSet)
    → contains t ts ≡ false
    → Aged ts s
    → Aged (insert t tran ts) s
Aged-insert_new t tran ts [] new a = tt
Aged-insert_new t tran ts ((time, k) ∷ s) new ((x, found, y), a) =
    ((x, find-insert_ne k t tran ts other ∙ found, y), Aged-insert_new t tran ts s new a)
  where
    other : k ≢ t
    other p = let q : contains k ts ≡ true = ground arith in ground arith

module _ (timestamp t : ℤ) (is_read_only : Bool) where
  abbrev tran : Transaction
  tran = new_transaction t timestamp is_read_only

  added_RollInv :
      (ts : Map Transaction) (s : AgeSet) (table graph : Map Set) (sites : SiteManager)
      → contains t ts ≡ false
      → Before timestamp s
      → RollInv ts s table graph sites
      → RollInv (insert t tran ts) ((timestamp, t) ∷ s) table graph sites
  unfolding new_transaction
  added_RollInv ts s table graph sites new b i = record {
    aged = ((tran, find-insert_self t tran ts, refl), Aged-insert_new t tran ts s new i.aged);
    descending = (b, i.descending);
    all = λ k h. elim (ℤ_discrete k t) [
      | yes p ↦ ground arith
      | no p ↦ ground (arith, find-insert_ne k t tran ts p, i.all k)
    ];
    tabled = i.tabled;
    copies = i.copies;
    waits = λ k h. elim (ℤ_discrete k t) [
      | yes p ↦ ground (arith, find-insert_self t tran ts)
      | no p ↦ ground (arith, find-insert_ne k t tran ts p, i.waits k h)
    ];
  }

  exec_create-Roll :
      Triple (λ tm. Roll tm × Fresh timestamp t tm) (exec_create timestamp t is_read_only) Roll
  unfolding exec_create add_transaction new_transaction
  exec_create-Roll =
      Triple_then (add_transaction t tran)
        (Triple_modify (λ tm (i, (new, b)).
          let j =
            added_RollInv tm.transactions tm.transactions_set tm.lock_manager.lock_table
              tm.lock_manager.wait_for_graph tm.site_manager new b i in
          subst
            (λ s.
              RollInv (insert t tran tm.transactions) s tm.lock_manager.lock_table
                tm.lock_manager.wait_for_graph tm.site_manager)
            (sym (insert_age-Before timestamp t tm.transactions_set b)) j))
        (Triple_modify {f = λ tm. record tm { log = (timestamp, created t) ∷ tm.log }} (λ tm i. i))

exec_end-Roll : (timestamp t : ℤ) → Triple Roll (exec_end timestamp t) Roll
unfolding exec_end
exec_end-Roll timestamp t = Triple_bind (get_transaction t) (get_transaction_keeps t) λ tran.
    Triple_bind (commit timestamp tran) (commit-Roll timestamp tran) λ done.
      Triple_if done
        (Triple_then (release t) (release-Idle t)
          (Triple_then (evict_transaction t) (evict-Roll t) (print-Roll (committed t))))
        (print-Roll (commit_failed t))

exec_dump-Roll : Triple Roll exec_dump Roll
unfolding exec_dump
exec_dump-Roll =
    Triple_bind (gets (λ tm. dump tm.site_manager)) (Triple_gets (λ tm. dump tm.site_manager))
      λ rows. print-Roll (dumped rows)

exec_fail-Roll : (k : ℤ) → Triple Roll (exec_fail k) Roll
unfolding exec_fail
exec_fail-Roll k =
    Triple_bind (gets (λ tm. tm.transactions)) (Triple_gets (λ tm. tm.transactions)) λ ts.
      Triple_then (change_site k Site.set_unavailable)
        (change_site-Roll k Site.set_unavailable down_keeps)
        (Triple_then (abort_all (writers k ts [])) (abort_all-Roll (writers k ts []))
          (print-Roll (site_failed k)))

makes_readable : (k x : ℤ) → Triple Roll (change_site k (set_read_available x)) Roll
makes_readable k x = change_site-Roll k (set_read_available x) (readable_keeps x)

exec_recovery-Roll : (k : ℤ) → Triple Roll (exec_recovery k) Roll
unfolding exec_recovery remove_from_site_waiting_map
exec_recovery-Roll k =
    let x = k +ℤ minus_one in
    let y = x +ℤ pos 10 in
    Triple_then (change_site k set_write_available)
      (change_site-Roll k set_write_available up_keeps)
      (Triple_then
        (if is_odd x
          then change_site k (set_read_available x) >> change_site k (set_read_available y)
          else pure tt)
        (Triple_if (is_odd x)
          (Triple_then (change_site k (set_read_available x)) (makes_readable k x)
            (makes_readable k y))
          (Triple_pure tt))
        (Triple_then (remove_from_site_waiting_map k) (Triple_modify (λ tm i. i))
          (print-Roll (site_recovered k))))

-- What a request may ask: a write is of a known transaction, and a begin of a fresh one.
abbrev pub Orderly : Kind → ℤ → ℤ → TransactionManager → Type 0
Orderly (Kind.write value) timestamp t tm = contains t tm.transactions ≡ true
Orderly (Kind.create is_read_only) timestamp t tm = Fresh timestamp t tm
Orderly Kind.read timestamp t tm = Unit {0}
Orderly Kind.end timestamp t tm = Unit {0}
Orderly Kind.dump timestamp t tm = Unit {0}
Orderly Kind.fail timestamp t tm = Unit {0}
Orderly Kind.recovery timestamp t tm = Unit {0}

pub exec-Roll :
    (r : Request) → Triple (λ tm. Roll tm × Orderly r.kind r.timestamp r.tran_id tm) (exec r) Roll
unfolding exec
exec-Roll r = kind r.kind
  where
    plain :
        {Q : TransactionManager → Type 0} {k : Action Done}
        → Triple Roll k Roll
        → Triple (λ tm. Roll tm × Q tm) k Roll
    plain h = Triple_weaken (λ tm p. p.0) h

    kind :
        (k : Kind)
        → Triple
            (λ tm. Roll tm × Orderly k r.timestamp r.tran_id tm)
            (exec (record r { kind = k }))
            Roll
    kind (Kind.write value) = record {
      run = λ tm tm' a e p.
          ((exec_write-Known r.timestamp r.tran_id r.var_id value).run tm tm' a e p).0;
    }
    kind Kind.read = plain (exec_read-Roll r.tran_id r.var_id r.timestamp)
    kind (Kind.create is_read_only) = exec_create-Roll r.timestamp r.tran_id is_read_only
    kind Kind.end = plain (exec_end-Roll r.timestamp r.tran_id)
    kind Kind.dump = plain exec_dump-Roll
    kind Kind.fail = plain (exec_fail-Roll r.site_id)
    kind Kind.recovery = plain (exec_recovery-Roll r.site_id)
