-- ===== src/Request/Read/Locked.antt =====
-- Reads that meet a lock. They ask for the write lock, as the source does.
use rep_crec.Request.{waiting_at, read_request}
use rep_crec.LockManager.{is_empty, is_waiting_for_others}
use rep_crec.SiteManager.{SiteManager, site_ids}
use rep_crec.Base.{
  Bool, Option, List, not, ◌&&◌, ◌||◌, ◌==ℤ◌, Option-cases, Bool-cases, inl, inr, ◌∷◌, insert,
  find_or, ◌≢◌, none, ◌≡◌, false, true, [], ℤ, ok, err, invalid_argument, arith, some, find,
}
use rep_crec.Global.{
  LockStatus, new_lock_status, available_to_assign, has_write_lock, is_odd, home_site,
}
use rep_crec.Variable.{
  Variable, has_shared_lock, has_exclusive_lock, has_shared_lock_exclude_self,
  has_exclusive_lock_exclude_self,
}
use rep_crec.Site.{Site, is_read_available, is_write_available, get_variable}
use rep_crec.SiteManager.{get_site}
use rep_crec.LockManager.{assign_wait_for_graph}
use rep_crec.LockManager.Acquire.{
  return, can_promote, write_copy, write_round, write_loop, try_write_even, collect, collect_owners,
  add_all, try_acquire_write_lock, try_write_odd, write_odd, can_promote_odd, must_wait,
}
use rep_crec.Transaction.{Transaction}
use rep_crec.Request.Write.{wait_for, ask_write_lock}
use rep_crec.Request.Read.{
  block_read, exec_read, handle_read_request, read_everywhere, read_at_home, read_locked_at_home,
  ask_readable,
}
use rep_crec.TransactionManager.{
  insert_request, add_request_to_blocked_queue, print, TransactionManager, get_transaction,
  lookup_transaction,
}

-- Whether the transaction has the exclusive lock of the copy, and nobody a shared one.
abbrev pub held : ℤ → Option Variable → Bool
held t none = false
held t (some v) =
    elim v.exclusive_lock_owner [ none ↦ false | some owner ↦ owner ==ℤ t ]
    && is_empty v.shared_lock_owners

-- The sites are there, and the transaction holds the copies of the variable at those that are up.
abbrev pub held_where_up : ℤ → ℤ → List ℤ → SiteManager → Bool
held_where_up t x [] sites = true
held_where_up t x (sid ∷ sids) sites = elim (find sid sites) [
  | none ↦ false
  | some s ↦
      (not (is_write_available s) || held t (get_variable x s)) && held_where_up t x sids sites
]

abbrev pub any_up : List ℤ → SiteManager → Bool
any_up [] sites = false
any_up (sid ∷ sids) sites = elim (find sid sites) [
  | none ↦ false
  | some s ↦ is_write_available s || any_up sids sites
]

held-write_copy :
    (t sid : ℤ) (waited : Bool) (o : Option Variable) (st : LockStatus)
    → held t o ≡ true
    → write_copy t waited sid o st
      ≡ return (record st { site_id_set = []; status = has_write_lock })
unfolding write_copy can_promote must_wait has_shared_lock has_exclusive_lock
    has_shared_lock_exclude_self has_exclusive_lock_exclude_self
held-write_copy t sid waited none st h = absurd cc
held-write_copy t sid waited (some v) st h = ground arith

-- The loop over the sites answers that the write lock is held.
held-write_loop :
    (t x : ℤ) (waited : Bool) (sids : List ℤ) (sites : SiteManager) (st : LockStatus)
    → held_where_up t x sids sites ≡ true
    → any_up sids sites ≡ true
    → write_loop sites t waited x sids st
      ≡ ok (record st { site_id_set = []; status = has_write_lock })
unfolding write_loop write_round get_site
held-write_loop t x waited [] sites st h up = absurd cc
held-write_loop t x waited (sid ∷ sids) sites st h up = elim (Option-cases (find sid sites)) [
  | inl n ↦ absurd (ground arith)
  | inr (s, found) ↦ elim (Bool-cases (is_write_available s)) [
    | inl here ↦
        let k : held t (get_variable x s) ≡ true = ground arith in
        let c = held-write_copy t sid waited (get_variable x s) st k in ground arith
    | inr down ↦
        let c = held-write_loop t x waited sids sites st (ground arith) (ground arith) in
        ground arith
  ]
]

-- A transaction that is not read-only asks to read an even variable. Where all ten sites are there and
-- one is up, and the transaction has the exclusive lock of the copy at each site that is up, and nobody
-- a shared one, the program ends with an exception.
pub exec_read_own_even :
    (timestamp tran_id var_id : ℤ) (tm : TransactionManager) (t : Transaction)
    → find tran_id tm.transactions ≡ some t
    → t.is_read_only ≡ false
    → is_odd var_id ≡ false
    → held_where_up tran_id var_id site_ids tm.site_manager ≡ true
    → any_up site_ids tm.site_manager ≡ true
    → exec_read timestamp tran_id var_id tm ≡ err invalid_argument
unfolding exec_read handle_read_request read_everywhere ask_write_lock get_transaction
    lookup_transaction try_acquire_write_lock try_write_even
exec_read_own_even timestamp tran_id var_id tm t known rw_tran even h up =
    let c =
      held-write_loop tran_id var_id (is_waiting_for_others tran_id tm.lock_manager) site_ids
        tm.site_manager (record new_lock_status { status = available_to_assign }) h up in
    ground arith

-- A transaction that is not read-only and asks to read an odd variable, at a home site that is up and
-- whose copy can be read and is locked exclusively by the reader and shared by nobody: the program
-- ends with an exception.
pub exec_read_own_odd :
    (timestamp tran_id var_id : ℤ) (tm : TransactionManager) (t : Transaction) (s : Site)
    (v : Variable)
    → find tran_id tm.transactions ≡ some t
    → t.is_read_only ≡ false
    → is_odd var_id ≡ true
    → find (home_site var_id) tm.site_manager ≡ some s
    → is_read_available var_id s ≡ true
    → is_write_available s ≡ true
    → get_variable var_id s ≡ some v
    → v.exclusive_lock_owner ≡ some tran_id
    → v.shared_lock_owners ≡ []
    → exec_read timestamp tran_id var_id tm ≡ err invalid_argument
unfolding exec_read handle_read_request read_locked_at_home read_at_home ask_readable ask_write_lock
    try_acquire_write_lock try_write_odd write_odd can_promote_odd must_wait get_transaction
    lookup_transaction get_site has_shared_lock has_exclusive_lock has_shared_lock_exclude_self
    has_exclusive_lock_exclude_self
exec_read_own_odd timestamp tran_id var_id tm t s v known rw_tran odd found readable up copy owned
      none_shared =
    ground arith

-- A second reader does not share the lock: where another transaction alone holds a shared lock of an
-- odd variable at a home site that is up and can be read, a transaction that is not read-only and asks
-- to read is put into the wait-for graph and its request into the queue.
pub exec_read_second :
    (timestamp tran_id var_id other : ℤ) (tm : TransactionManager) (t : Transaction) (s : Site)
    (v : Variable)
    → find tran_id tm.transactions ≡ some t
    → t.is_read_only ≡ false
    → is_odd var_id ≡ true
    → find (home_site var_id) tm.site_manager ≡ some s
    → is_read_available var_id s ≡ true
    → is_write_available s ≡ true
    → get_variable var_id s ≡ some v
    → v.exclusive_lock_owner ≡ none
    → v.shared_lock_owners ≡ other ∷ []
    → tran_id ≢ other
    → exec_read timestamp tran_id var_id tm
      ≡ ok (
        tt,
        record tm {
          log = (tm.curr_timestamp, waiting_at tran_id var_id (home_site var_id)) ∷ tm.log;
          lock_manager = assign_wait_for_graph tran_id (other ∷ []) tm.lock_manager;
          blocked_transactions_queue =
              insert tran_id
                (insert_request
                  (read_request timestamp tran_id var_id)
                  (find_or [] tran_id tm.blocked_transactions_queue))
                tm.blocked_transactions_queue;
        },
      )
unfolding exec_read handle_read_request read_locked_at_home read_at_home ask_readable ask_write_lock
    try_acquire_write_lock try_write_odd write_odd can_promote_odd must_wait get_transaction
    lookup_transaction get_site has_shared_lock has_exclusive_lock has_shared_lock_exclude_self
    has_exclusive_lock_exclude_self collect collect_owners add_all wait_for block_read print
    add_request_to_blocked_queue read_request
exec_read_second timestamp tran_id var_id other tm t s v known rw_tran odd found readable up copy
      alone shared ne =
    ground arith
