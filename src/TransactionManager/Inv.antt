-- ===== src/TransactionManager/Inv.antt =====
-- What is true of the locks in every state, kept by the small operations of the transaction manager.
pub mod Write
pub mod Abort
pub mod Sites
pub mod Read
pub mod Exec
pub mod Run
use rep_crec.Base.{
  minus_one, Bool, true, false, ◌≡◌, refl, sym, subst, ◌∙◌, ap, inl, inr, some, none, Option, [],
  ◌∷◌, ℤ, Set, Map, find, insert, contains, insert-IsMap, find-insert_self, find-insert_ne,
  ℤ_discrete, arith, ok, err, Option-cases, out_of_range,
}
use rep_crec.SiteManager.{SiteManager}
use rep_crec.Transaction.{Transaction, update_values}
use rep_crec.LockManager.{assign_wait_for_graph}
use rep_crec.LockManager.Assign.{assign_write_lock, assign_share_lock}
use rep_crec.LockManager.Hold.{LockInv, Ours, LockInv-transactions}
use rep_crec.LockManager.Hold.Assign.{assign_write_lock-LocksInv, assign_share_lock-LocksInv}
use rep_crec.Request.{Request, Message}
use rep_crec.Request.Write.{wait_for, update_all, take_write_lock}
use rep_crec.Request.Read.{take_share_lock}
use rep_crec.TransactionManager.{
  Action, TransactionManager, ◌>>=◌, asks, modify, bind-eq-ok, print, on_transaction,
  get_transaction, lookup_transaction, add_request_to_blocked_queue, add_to_site_waiting_map,
  remove_from_site_waiting_map, add_transaction, drop_blocked,
}
use rep_crec.TransactionManager.Triple.{
  Triple, Triple_modify, Triple_bind_asks, Triple_asks, Triple_bind, Triple_then, Triple_pure,
}

abbrev pub Inv : TransactionManager → Type 0
Inv tm = LockInv tm.lock_manager.lock_table tm.transactions tm.site_manager

-- The invariant, and that nobody but the transaction has locked the variable at the sites of the set.
abbrev pub Guard : ℤ → Set → ℤ → TransactionManager → Type 0
Guard t sids x tm = Inv tm × Ours t sids x tm.site_manager

contains-insert :
    {V : Type 0} (j k : ℤ) (v : V) (m : Map V)
    → contains j m ≡ true
    → contains j (insert k v m) ≡ true
contains-insert j k v m h = elim (ℤ_discrete j k) [
  | yes p ↦ ground (arith, find-insert_self k v m)
  | no p ↦ ground (arith, find-insert_ne j k v m p)
]

pub insert-Inv :
    (k : ℤ) (tran : Transaction) (tm : TransactionManager)
    → Inv tm
    → Inv (record tm { transactions = insert k tran tm.transactions })
insert-Inv k tran tm i =
    LockInv-transactions (λ u _ h. contains-insert u k tran tm.transactions h)
      (insert-IsMap k tran tm.transactions i.known) i

module _ (t : ℤ) (sids : Set) (x : ℤ) where
  pub print-Guard : (m : Message) → Triple (Guard t sids x) (print m) (Guard t sids x)
  unfolding print
  print-Guard m = Triple_modify (λ tm g. g)

  pub wait_for-Guard :
      (u : ℤ) (owners : Set) → Triple (Guard t sids x) (wait_for u owners) (Guard t sids x)
  unfolding wait_for assign_wait_for_graph
  wait_for-Guard u owners = Triple_modify (λ tm g. g)

  pub add_request-Guard :
      (r : Request) → Triple (Guard t sids x) (add_request_to_blocked_queue r) (Guard t sids x)
  unfolding add_request_to_blocked_queue
  add_request-Guard r = Triple_modify (λ tm g. g)

  pub on_transaction-Guard :
      (u : ℤ) (f : Transaction → Transaction)
      → Triple (Guard t sids x) (on_transaction u f) (Guard t sids x)
  unfolding on_transaction get_transaction
  on_transaction-Guard u f =
      Triple_bind (asks (lookup_transaction u)) (Triple_asks (lookup_transaction u))
        λ tran. Triple_modify (λ tm g. (insert-Inv u (f tran) tm g.0, g.1))

  pub add_to_site_waiting_map-Guard :
      (u k : ℤ) → Triple (Guard t sids x) (add_to_site_waiting_map u k) (Guard t sids x)
  unfolding add_to_site_waiting_map
  add_to_site_waiting_map-Guard u k = Triple_modify (λ tm g. g)

  pub update_all-Guard :
      (u : ℤ) (ks : Set) (y value : ℤ)
      → Triple (Guard t sids x) (update_all u ks y value) (Guard t sids x)
  unfolding update_all
  update_all-Guard u [] y value = Triple_pure tt
  update_all-Guard u (k ∷ ks) y value =
      Triple_then (on_transaction u (update_values k y value))
        (on_transaction-Guard u (update_values k y value)) (update_all-Guard u ks y value)

  pub take_write_lock-Inv : Triple (Guard t sids x) (take_write_lock t sids x) Inv
  unfolding take_write_lock
  take_write_lock-Inv =
      Triple_bind_asks
        (λ tm. assign_write_lock tm.transactions t sids x (tm.lock_manager, tm.site_manager))
        λ ls. Triple_modify (λ tm p.
          assign_write_lock-LocksInv tm.transactions t x sids (tm.lock_manager, tm.site_manager) ls
            p.1 p.0.1 p.0.0)

  pub take_share_lock-Inv : Triple (Guard t sids x) (take_share_lock t sids x) Inv
  unfolding take_share_lock
  take_share_lock-Inv =
      Triple_bind_asks
        (λ tm. assign_share_lock tm.transactions t sids x (tm.lock_manager, tm.site_manager))
        λ ls. Triple_modify (λ tm p.
          assign_share_lock-LocksInv tm.transactions t x sids (tm.lock_manager, tm.site_manager) ls
            p.1 p.0.1 p.0.0)

-- What keeps the invariant together with any set of sites keeps the invariant alone.
pub Guard-Inv :
    {A : Type 0} {m : Action A} (t x : ℤ)
    → Triple (Guard t [] x) m (Guard t [] x)
    → Triple Inv m Inv
Guard-Inv t x h = record {
  run = λ tm tm' a e i. (h.run tm tm' a e (i, (λ k u m q. absurd cc, λ k m q. absurd cc))).0;
}

pub print-Inv : (m : Message) → Triple Inv (print m) Inv
print-Inv m = Guard-Inv minus_one minus_one (print-Guard minus_one [] minus_one m)

pub on_transaction-Inv :
    (u : ℤ) (f : Transaction → Transaction) → Triple Inv (on_transaction u f) Inv
on_transaction-Inv u f = Guard-Inv u u (on_transaction-Guard u [] u u f)
