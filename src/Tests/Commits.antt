-- ===== src/Tests/Commits.antt =====
-- Examples for the theorems on commits.
use rep_crec.Base.{◌≡◌, refl, none, some, false, [], ◌∷◌, pos, find, ℤ_discrete}
use rep_crec.Global.{is_odd, home_site}
use rep_crec.Variable.{
  has_shared_lock, has_exclusive_lock, remove_shared_owner, remove_exclusive_owner,
}
use rep_crec.Site.{is_write_available, get_variable, put_variable, deref_variable}
use rep_crec.SiteManager.{get_site, on_copy, on_site, put_site}
use rep_crec.LockManager.Release.{release_locks}
use rep_crec.Transaction.{Transaction}
use rep_crec.TransactionManager.{abort_transaction, abort_transaction, TransactionManager}
use rep_crec.TransactionManager.Commit.{writes_available, commit}
use rep_crec.TransactionManager.Commit.Atomic.{commit_refused}
use rep_crec.Tests.States.{a_variable, a_transaction, record_3, after, state, lock_3}

abbrev writer : Transaction
writer = a_transaction (pos 1) (pos 10001) record_3

-- Transaction 1 holds variable 3 at a site that is down.
abbrev holding_down : TransactionManager
holding_down =
    state lock_3
      ((
        pos 4,
        record {
          id = pos 4;
          write_available = false;
          read_available_map = (pos 3, false) ∷ [];
          variables = (pos 3, a_variable (pos 3) (pos 30) (some (pos 1)) []) ∷ [];
        },
      )
        ∷ [])
      []

commit_refused_example :
    find (pos 1) (after (commit (pos 10005) writer holding_down)).transactions ≡ none
unfolding commit abort_transaction on_site get_site put_site is_odd home_site ℤ_discrete
    release_locks on_copy put_variable deref_variable get_variable has_shared_lock
    has_exclusive_lock remove_exclusive_owner remove_shared_owner is_write_available
    writes_available
commit_refused_example =
    (commit_refused (pos 10005) writer holding_down
      {tm' = after (commit (pos 10005) writer holding_down)} refl).0
