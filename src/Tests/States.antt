-- ===== src/Tests/States.antt =====
-- Small states for the examples: site 4 alone, with variable 3, or site 1 alone, with variable 2.
use rep_crec.Request.{Request, write_request}
use rep_crec.Base.{
  some, Result, ok, err, true, false, Option, none, List, [], ◌∷◌, ℤ, pos, minus_one, Map, Set,
}
use rep_crec.Variable.{Variable}
use rep_crec.Site.{Site}
use rep_crec.SiteManager.{SiteManager}
use rep_crec.LockManager.{LockManager}
use rep_crec.Transaction.{Transaction, Records}
use rep_crec.Request.{Request}
use rep_crec.TransactionManager.{TransactionManager}

abbrev pub a_variable : ℤ → ℤ → Option ℤ → Set → Variable
a_variable id value owner readers = record {
  id = id;
  value = value;
  versions = (minus_one, value) ∷ [];
  exclusive_lock_owner = owner;
  shared_lock_owners = readers;
}

abbrev pub a_site : ℤ → Variable → Site
a_site id v = record {
  id = id;
  write_available = true;
  read_available_map = (v.id, true) ∷ [];
  variables = (v.id, v) ∷ [];
}

-- Site 4 with variable 3.
abbrev pub site_4 : Option ℤ → Set → SiteManager
site_4 owner readers = (pos 4, a_site (pos 4) (a_variable (pos 3) (pos 30) owner readers)) ∷ []

-- Site 1 with variable 2.
abbrev pub site_1 : Option ℤ → Set → SiteManager
site_1 owner readers = (pos 1, a_site (pos 1) (a_variable (pos 2) (pos 20) owner readers)) ∷ []

-- Transaction 1 has locked variable 3.
abbrev pub lock_3 : LockManager
lock_3 = record { lock_table = (pos 1, pos 3 ∷ []) ∷ []; wait_for_graph = [] }

abbrev pub no_locks : LockManager
no_locks = record { lock_table = []; wait_for_graph = [] }

abbrev pub a_transaction : ℤ → ℤ → Records → Transaction
a_transaction id time records = record {
  timestamp = time;
  transaction_id = id;
  waiting_var_id = minus_one;
  is_read_only = false;
  write_records = records;
  read_accessed_sites = [];
  write_accessed_sites = records;
}

abbrev pub record_3 : Records
record_3 = (pos 4, (pos 3, pos 33) ∷ []) ∷ []

-- Transaction 1 wrote variable 3, transaction 2 did nothing yet.
abbrev pub state : LockManager → SiteManager → Map (List Request) → TransactionManager
state locks sites queue = record {
  curr_timestamp = pos 10002;
  request = none;
  lock_manager = locks;
  site_manager = sites;
  transactions_set = (pos 10002, pos 2) ∷ (pos 10001, pos 1) ∷ [];
  site_waiting_map = [];
  transactions =
      (pos 2, a_transaction (pos 2) (pos 10002) [])
      ∷ (pos 1, a_transaction (pos 1) (pos 10001) record_3)
      ∷ [];
  blocked_transactions_queue = queue;
  log = [];
}

-- The state after an action that succeeds.
abbrev pub after : {A : Type 0} → Result (A × TransactionManager) → TransactionManager
after (ok (_, tm)) = tm
after (err e) = state no_locks [] []

-- Transaction 1 holds variable 3, and transaction 2 has put off a write of it.
abbrev pub retried : TransactionManager
retried =
    state lock_3 (site_4 (some (pos 1)) [])
      ((pos 2, write_request (pos 10003) (pos 2) minus_one (pos 3) (pos 5) ∷ []) ∷ [])

abbrev pub holding : TransactionManager
holding = state lock_3 (site_4 (some (pos 1)) []) []
