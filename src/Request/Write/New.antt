-- ===== src/Request/Write/New.antt =====
-- A write of an even variable that gets its lock.
use rep_crec.Base.{
  ◌==ℤ◌, ◌&&◌, true, false, ◌≡◌, refl, sym, ap, ◌∙◌, inl, inr, Option, none, some, [], ◌∷◌, ℤ, Set,
  mem, find, find_or, insert, find-insert_self, find-insert_ne, ok, err, out_of_range, arith,
  Option-cases, Result-cases, ℤ_discrete, if◌then◌else◌,
}
use rep_crec.Global.{LockStatus, available_to_assign, is_odd}
use rep_crec.Variable.{Variable, has_exclusive_lock, has_shared_lock}
use rep_crec.Variable.Locks.{IsFree}
use rep_crec.Site.{get_variable}
use rep_crec.SiteManager.{site_ids}
use rep_crec.SiteManager.Copies.{copy}
use rep_crec.Transaction.{Transaction, update_values, put_record}
use rep_crec.LockManager.Acquire.{try_acquire_write_lock}
use rep_crec.LockManager.Acquire.Grant.{try_acquire_write_lock_grants}
use rep_crec.LockManager.Acquire.Cover.{try_acquire_write_lock-covers}
use rep_crec.LockManager.Assign.{assign_write_lock}
use rep_crec.LockManager.Assign.Locks.{owns, spared, assign_write_lock-owns}
use rep_crec.LockManager.Release.Sites.{writable}
use rep_crec.LockManager.Hold.{locked, present, holds_copy}
use rep_crec.Request.{got_write_lock, updates}
use rep_crec.Request.Write.{
  ask_write_lock, update_all, take_write_lock, write_everywhere, exec_write,
}
use rep_crec.TransactionManager.{
  TransactionManager, Done, ◌>>=◌, ◌>>◌, print, on_transaction, get_transaction, lookup_transaction,
  bind-eq-ok,
}

-- The value that the transaction has noted for a variable at a site.
abbrev pub noted : ℤ → ℤ → Option Transaction → Option ℤ
noted a b none = none
noted a b (some t) = find b (find_or [] a t.write_records)

noted-put_record :
    (a b k x value : ℤ) (t : Transaction)
    → noted a b (some (update_values k x value t))
      ≡ (if (a ==ℤ k) && (b ==ℤ x) then some value else noted a b (some t))
unfolding update_values put_record
noted-put_record a b k x value t =
    let r = t.write_records in
    ground (
      arith,
      find-insert_self k (insert x value (find_or [] k r)) r,
      find-insert_ne a k (insert x value (find_or [] k r)) r,
      find-insert_self x value (find_or [] k r),
      find-insert_ne b x value (find_or [] k r),
    )

-- The loop over the sites notes the value for each of them, and touches neither locks nor sites.
update_all-noted :
    (t x value : ℤ) (sids : Set) (tm : TransactionManager) {tm' : TransactionManager}
    → update_all t sids x value tm ≡ ok (tt, tm')
    → (tm'.site_manager ≡ tm.site_manager)
      × ((a : ℤ)
          → noted a x (find t tm.transactions) ≡ some value
          → noted a x (find t tm'.transactions) ≡ some value)
      × ((a : ℤ) → mem a sids ≡ true → noted a x (find t tm'.transactions) ≡ some value)
unfolding update_all on_transaction get_transaction lookup_transaction
update_all-noted t x value [] tm {tm'} e =
    let p : tm ≡ tm' = cc in
    (
      ap (λ y. y.site_manager) (sym p),
      λ a h. ap (λ y. noted a x (find t y.transactions)) (sym p) ∙ h,
      λ a m. absurd cc,
    )
update_all-noted t x value (k ∷ sids) tm {tm'} e =
    let (_, n, first, rest) =
      bind-eq-ok (on_transaction t (update_values k x value)) (λ _. update_all t sids x value) tm
        e in
    let (same, keeps, all) = update_all-noted t x value sids n rest in
    elim (Option-cases (find t tm.transactions)) [
      | inl none_t ↦ absurd (
          let q : on_transaction t (update_values k x value) tm ≡ err out_of_range = ground arith in
          cc)
      | inr (tran, found) ↦
          let p : n ≡ record tm {
            transactions = insert t (update_values k x value tran) tm.transactions;
          } =
            ground arith in
          let now : find t n.transactions ≡ some (update_values k x value tran) =
            ap (λ y. find t y.transactions) p
            ∙ find-insert_self t (update_values k x value tran) tm.transactions in
          let note = λ (a : ℤ). ap (noted a x) now ∙ noted-put_record a x k x value tran in
          (
            same ∙ ap (λ y. y.site_manager) p,
            λ a h. keeps a (ground (arith, note a)),
            λ a m. elim (ℤ_discrete a k) [
              | yes z ↦ keeps a (ground (arith, note a))
              | no z ↦ all a (ground arith)
            ],
          )
    ]

take_write_lock-owns :
    (t x : ℤ) (sids : Set) (tm : TransactionManager) {tm' : TransactionManager}
    → take_write_lock t sids x tm ≡ ok (tt, tm')
    → (tm'.transactions ≡ tm.transactions)
      × ((a : ℤ)
          → mem a sids ≡ true
          → writable a tm.site_manager ≡ true
          → spared t (copy a x tm.site_manager) ≡ true
          → owns t (copy a x tm'.site_manager) ≡ true)
unfolding take_write_lock
take_write_lock-owns t x sids tm {tm'} e =
    elim (Result-cases
      (assign_write_lock tm.transactions t sids x (tm.lock_manager, tm.site_manager))) [
        | inr (y, r) ↦ absurd (let q : take_write_lock t sids x tm ≡ err y = ground arith in cc)
        | inl (ls, r) ↦
            let p : tm' ≡ record tm { lock_manager = ls.0; site_manager = ls.1 } = ground arith in
            (
              ap (λ y. y.transactions) p,
              λ a m up free.
                  ap (λ y. owns t (copy a x y.site_manager)) p
                  ∙ (assign_write_lock-owns tm.transactions t x sids
                        (tm.lock_manager, tm.site_manager) ls r).1
                      a m up free,
            )
      ]

-- A free copy.
free_copy :
    (t u : ℤ) (v : Variable)
    → IsFree v
    → (holds_copy u (some v) ≡ false) × (spared t (some v) ≡ true)
unfolding has_exclusive_lock has_shared_lock
free_copy t u v (none_e, none_s) = (ground arith, ground arith)

-- The line that is printed before the locks are taken.
abbrev says_updated : ℤ → ℤ → ℤ → TransactionManager → TransactionManager
says_updated t x value o = record o { log = (o.curr_timestamp, updates t x value) ∷ o.log }

-- The steps of a write that gets its lock.
granted_steps :
    (timestamp t x value : ℤ) (st : LockStatus) (tm : TransactionManager) {tm' : TransactionManager}
    → st.status ≡ available_to_assign
    → write_everywhere timestamp t x value st tm ≡ ok (tt, tm')
    → (n : TransactionManager) × (o : TransactionManager) × (update_all t st.site_id_set x value n
        ≡ ok (tt, o))
      × (n.transactions ≡ tm.transactions)
      × (n.site_manager ≡ tm.site_manager)
      × (take_write_lock t st.site_id_set x (says_updated t x value o) ≡ ok (tt, tm'))
unfolding write_everywhere print
granted_steps timestamp t x value st tm {tm'} a e =
    let n = record tm { log = (tm.curr_timestamp, got_write_lock t x) ∷ tm.log } in
    let rest = λ (_ : Done). print (updates t x value) >> take_write_lock t st.site_id_set x in
    let e1 : (update_all t st.site_id_set x value >>= rest) n ≡ ok (tt, tm') = ground arith in
    let (_, o, first, last) = bind-eq-ok (update_all t st.site_id_set x value) rest n e1 in
    (n, o, first, refl, refl, last)

-- A write of an even variable whose lock is available, where the request succeeds, writes all copies
-- that are available: at each of the ten sites that is up and has a copy, nobody held a lock of the
-- copy, the transaction has the exclusive lock of it then, and has noted the value for it.
pub exec_write-owns :
    (timestamp t x value a : ℤ) (tm : TransactionManager) {st : LockStatus}
    {tm' : TransactionManager}
    → is_odd x ≡ false
    → try_acquire_write_lock t x tm.lock_manager tm.site_manager ≡ ok st
    → st.status ≡ available_to_assign
    → exec_write timestamp t x value tm ≡ ok (tt, tm')
    → mem a site_ids ≡ true
    → writable a tm.site_manager ≡ true
    → present a x tm.site_manager ≡ true
    → ((u : ℤ) → locked u a x tm.site_manager ≡ false)
      × (owns t (copy a x tm'.site_manager) ≡ true)
      × (noted a x (find t tm'.transactions) ≡ some value)
unfolding exec_write ask_write_lock get_variable
exec_write-owns timestamp t x value a tm {st} {tm'} even asked available e here up there =
    let w : write_everywhere timestamp t x value st tm ≡ ok (tt, tm') = ground arith in
    let (n, o, first, trans, same, last) = granted_steps timestamp t x value st tm available w in
    let (kept, _, noted_all) = update_all-noted t x value st.site_id_set n first in
    let (trans', owned) = take_write_lock-owns t x st.site_id_set (says_updated t x value o) last in
    let m =
      try_acquire_write_lock-covers t x a tm.lock_manager tm.site_manager even asked available here
        up in
    let sites : o.site_manager ≡ tm.site_manager = kept ∙ same in
    elim (Option-cases (find a tm.site_manager)) [
      | inl none_s ↦ absurd (ground arith)
      | inr (s, found) ↦ elim (Option-cases (find x s.variables)) [
        | inl none_v ↦ absurd (ground arith)
        | inr (v, at) ↦
            let (_, free) =
              try_acquire_write_lock_grants t x a tm.lock_manager tm.site_manager s v asked
                available m found at in
            let c : copy a x tm.site_manager ≡ some v = ground arith in
            (
              λ u. ap (holds_copy u) c ∙ (free_copy t u v free).0,
              owned a m (ap (writable a) sites ∙ up) (
                  ap (λ y. spared t (copy a x y)) sites
                  ∙ ap (spared t) c
                  ∙ (free_copy t t v free).1),
              ap (λ y. noted a x (find t y)) trans' ∙ noted_all a m,
            )
      ]
    ]
