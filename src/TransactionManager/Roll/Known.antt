-- ===== src/TransactionManager/Roll/Known.antt =====
-- The small actions of a transaction that is known, beside the roll of the transactions.
use rep_crec.Base.{
  ◌≡◌, refl, true, subst, sym, ◌∙◌, [], ◌∷◌, ℤ, Set, find, some, contains, arith, ok, err, inl, inr,
  Option-cases, out_of_range, insert,
}
use rep_crec.Transaction.{Transaction, update_values}
use rep_crec.LockManager.{assign_wait_for_graph}
use rep_crec.LockManager.Assign.{Locks, assign_write_lock, assign_share_lock}
use rep_crec.LockManager.Assign.Graph.{assign_write_lock-graph, assign_share_lock-graph}
use rep_crec.Request.{Request, Message}
use rep_crec.Request.Write.{wait_for, update_all, take_write_lock}
use rep_crec.Request.Read.{take_share_lock}
use rep_crec.TransactionManager.{
  TransactionManager, print, on_transaction, get_transaction, lookup_transaction,
  add_request_to_blocked_queue, add_to_site_waiting_map,
}
use rep_crec.TransactionManager.Triple.{
  Triple, Triple_modify, Triple_bind_asks, Triple_then, Triple_pure,
}
use rep_crec.TransactionManager.Roll.{RollInv, Roll, Aged-insert, contains-insert_back}
use rep_crec.TransactionManager.Roll.Small.{
  add_edges-RollInv, assign_write_lock-RollInv, assign_share_lock-RollInv,
}

-- The roll is right, and the transaction is known.
abbrev pub Known : ℤ → TransactionManager → Type 0
Known t tm = Roll tm × (contains t tm.transactions ≡ true)

lookup_transaction-eq-ok :
    (u : ℤ) (tm : TransactionManager) {tran : Transaction}
    → lookup_transaction u tm ≡ ok tran
    → find u tm.transactions ≡ some tran
unfolding lookup_transaction
lookup_transaction-eq-ok u tm {tran} e = elim (Option-cases (find u tm.transactions)) [
  | inl n ↦ absurd (let k : lookup_transaction u tm ≡ err out_of_range = ground arith in cc)
  | inr (x, p) ↦ ground arith
]

-- A transaction that is looked up is known.
pub lookup_transaction-contains :
    (u : ℤ) (tm : TransactionManager) {tran : Transaction}
    → lookup_transaction u tm ≡ ok tran
    → contains u tm.transactions ≡ true
lookup_transaction-contains u tm e = let p = lookup_transaction-eq-ok u tm e in ground arith

changed_Known :
    (t u : ℤ) (old new : Transaction) (tm : TransactionManager)
    → find u tm.transactions ≡ some old
    → new.timestamp ≡ old.timestamp
    → Known t tm
    → Known t (record tm { transactions = insert u new tm.transactions })
changed_Known t u old new tm found same (i, known) = (
  record {
    aged = Aged-insert u old new tm.transactions tm.transactions_set found same i.aged;
    descending = i.descending;
    all = λ k h. i.all k (sym (back k) ∙ h);
    tabled = i.tabled;
    copies = i.copies;
    waits = λ k h. back k ∙ i.waits k h;
  },
  back t ∙ known,
)
  where
    back : (k : ℤ) → contains k (insert u new tm.transactions) ≡ contains k tm.transactions
    back k = contains-insert_back k u old new tm.transactions found

graph_same :
    (tm : TransactionManager) (ls : Locks)
    → ls.0.wait_for_graph ≡ tm.lock_manager.wait_for_graph
    → RollInv tm.transactions tm.transactions_set ls.0.lock_table tm.lock_manager.wait_for_graph
        ls.1
    → Roll (record tm { lock_manager = ls.0; site_manager = ls.1 })
graph_same tm ls e i =
    subst (λ g. RollInv tm.transactions tm.transactions_set ls.0.lock_table g ls.1) (sym e) i

module _ (t : ℤ) where
  pub print-Known : (m : Message) → Triple (Known t) (print m) (Known t)
  unfolding print
  print-Known m = Triple_modify (λ tm g. g)

  pub add_request-Known :
      (r : Request) → Triple (Known t) (add_request_to_blocked_queue r) (Known t)
  unfolding add_request_to_blocked_queue
  add_request-Known r = Triple_modify (λ tm g. g)

  pub add_to_site_waiting_map-Known :
      (u k : ℤ) → Triple (Known t) (add_to_site_waiting_map u k) (Known t)
  unfolding add_to_site_waiting_map
  add_to_site_waiting_map-Known u k = Triple_modify (λ tm g. g)

  pub wait_for-Known : (owners : Set) → Triple (Known t) (wait_for t owners) (Known t)
  unfolding wait_for assign_wait_for_graph
  wait_for-Known owners = Triple_modify (λ tm (i, known). (
    add_edges-RollInv tm.transactions tm.transactions_set t owners tm.lock_manager.lock_table
        tm.lock_manager.wait_for_graph tm.site_manager known i,
    known,
  ))

  pub on_transaction-Known :
      (u : ℤ) (f : Transaction → Transaction)
      → ((tran : Transaction) → (f tran).timestamp ≡ tran.timestamp)
      → Triple (Known t) (on_transaction u f) (Known t)
  unfolding on_transaction get_transaction
  on_transaction-Known u f same = Triple_bind_asks (lookup_transaction u) λ tran.
      Triple_modify (λ tm p.
        changed_Known t u tran (f tran) tm (lookup_transaction-eq-ok u tm p.1) (same tran) p.0)

  pub update_values-Known :
      (k x value : ℤ) → Triple (Known t) (on_transaction t (update_values k x value)) (Known t)
  unfolding update_values
  update_values-Known k x value = on_transaction-Known t (update_values k x value) (λ tran. refl)

  pub update_all-Known :
      (ks : Set) (x value : ℤ) → Triple (Known t) (update_all t ks x value) (Known t)
  unfolding update_all
  update_all-Known [] x value = Triple_pure tt
  update_all-Known (k ∷ ks) x value =
      Triple_then (on_transaction t (update_values k x value)) (update_values-Known k x value)
        (update_all-Known ks x value)

  pub take_write_lock-Known :
      (sids : Set) (x : ℤ) → Triple (Known t) (take_write_lock t sids x) (Known t)
  unfolding take_write_lock
  take_write_lock-Known sids x =
      Triple_bind_asks
        (λ tm. assign_write_lock tm.transactions t sids x (tm.lock_manager, tm.site_manager))
        λ ls. Triple_modify (λ tm p. (
          graph_same tm ls
              (assign_write_lock-graph tm.transactions t x sids (tm.lock_manager, tm.site_manager)
                ls p.1)
              (assign_write_lock-RollInv tm.transactions tm.transactions_set t x
                tm.lock_manager.wait_for_graph sids (tm.lock_manager, tm.site_manager) ls p.1
                p.0.0),
          p.0.1,
        ))

  pub take_share_lock-Known :
      (sids : Set) (x : ℤ) → Triple (Known t) (take_share_lock t sids x) (Known t)
  unfolding take_share_lock
  take_share_lock-Known sids x =
      Triple_bind_asks
        (λ tm. assign_share_lock tm.transactions t sids x (tm.lock_manager, tm.site_manager))
        λ ls. Triple_modify (λ tm p. (
          graph_same tm ls
              (assign_share_lock-graph tm.transactions t x sids (tm.lock_manager, tm.site_manager)
                ls p.1)
              (assign_share_lock-RollInv tm.transactions tm.transactions_set t x
                tm.lock_manager.wait_for_graph sids (tm.lock_manager, tm.site_manager) ls p.1
                p.0.0),
          p.0.1,
        ))
