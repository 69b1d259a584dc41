-- ===== src/Tests/Reads.antt =====
-- Examples for the theorems on versions, on what is read, on the checks of a commit and on dumps.
use rep_crec.Base.{
  ◌≡◌, ◌↔◌, refl, some, none, true, false, range, [], ◌∷◌, pos, negsuc, ok, arith, ℤ_discrete, ◌+ℤ◌,
}
use rep_crec.Global.{is_odd, home_site}
use rep_crec.Variable.{
  times_ten, remove_exclusive_owner, has_exclusive_lock, has_shared_lock, new_variable, get_value,
  set_value,
}
use rep_crec.Variable.Timeline.{Commits, timeline, replay, get_value-replay}
use rep_crec.Site.{
  put_variable, deref_variable, is_read_available, set_read_available, assign_var, dump_cells,
  new_variables,
}
use rep_crec.SiteManager.{on_copy, deref_copy, on_site, get_site, site_ids, SiteManager}
use rep_crec.SiteManager.Copies.{copy}
use rep_crec.SiteManager.Placement.{shown, dump_cells-sites_of}
use rep_crec.LockManager.{is_waiting_for_lock}
use rep_crec.LockManager.Release.{release_locks}
use rep_crec.LockManager.Release.Wake.{release_locks_wakes}
use rep_crec.Transaction.{Transaction}
use rep_crec.Request.Read.{exec_read}
use rep_crec.Request.Read.Only.{ReadOnly, exec_read_only_even}
use rep_crec.TransactionManager.{TransactionManager}
use rep_crec.TransactionManager.Commit.{writes_available, reads_available, apply_records}
use rep_crec.TransactionManager.Commit.Check.{
  AllUp, EveryReadable, writes_available_iff, reads_available_iff,
}
use rep_crec.TransactionManager.Commit.Snapshot.{read_as_of, apply_records_snapshot}
use rep_crec.Tests.States.{
  after, state, site_1, site_4, no_locks, lock_3, record_3, a_transaction, a_variable,
}

abbrev two_commits : Commits
two_commits = (pos 10007, pos 5) ∷ (pos 10003, pos 4) ∷ []

get_value-replay_example :
    get_value (pos 10006) (replay (new_variable (pos 3)) two_commits)
    ≡ ok (timeline (times_ten (pos 3)) two_commits (pos 10006))
get_value-replay_example =
    get_value-replay (pos 3) (pos 10006) two_commits ((omega arith), (omega arith, tt))
      (omega arith)

writes_available_iff_example :
    (writes_available record_3 (site_4 none []) ≡ ok true) ↔ AllUp (site_4 none []) record_3
writes_available_iff_example = writes_available_iff record_3 (site_4 none [])

reads_available_iff_example :
    (reads_available record_3 (site_4 none []) ≡ ok true) ↔ EveryReadable (site_4 none []) record_3
reads_available_iff_example = reads_available_iff record_3 (site_4 none [])

-- What the commit of the record leaves.
abbrev done_3 : SiteManager
done_3 =
    (
      pos 4,
      record {
        id = pos 4;
        write_available = true;
        read_available_map = (pos 3, true) ∷ [];
        variables =
            (
              pos 3,
              record (a_variable (pos 3) (pos 30) none []) {
                value = pos 33;
                versions = (negsuc 0, pos 30) ∷ (pos 10005, pos 33) ∷ [];
              },
            )
            ∷ [];
      },
    )
    ∷ []

apply_records_snapshot_example :
    read_as_of (pos 10002) (copy (pos 4) (pos 3) done_3)
    ≡ read_as_of (pos 10002) (copy (pos 4) (pos 3) (site_4 none []))
unfolding apply_records ℤ_discrete get_site on_site assign_var set_read_available set_value
apply_records_snapshot_example =
    apply_records_snapshot (pos 10002) (pos 10005) record_3 (site_4 none []) (pos 4) (pos 3)
      {m' = done_3} (refl, tt) (λ a. ground arith) (λ v e. ground arith) (λ e. cc) (omega arith)
      refl

abbrev only_reader : Transaction
only_reader = record (a_transaction (pos 2) (pos 10002) []) { is_read_only = true }

abbrev reading : TransactionManager
reading = record (state no_locks (site_1 none []) []) { transactions = (pos 2, only_reader) ∷ [] }

exec_read_only_even_example :
    ReadOnly
      (pos 2)
      (pos 2)
      site_ids
      only_reader
      reading
      (after (exec_read (pos 10003) (pos 2) (pos 2) reading))
unfolding exec_read ℤ_discrete is_odd site_ids range get_site is_read_available deref_copy
    deref_variable get_value
exec_read_only_even_example =
    exec_read_only_even (pos 10003) (pos 2) (pos 2) only_reader reading
      {tm' = after (exec_read (pos 10003) (pos 2) (pos 2) reading)} refl refl refl refl

release_locks_wakes_example : is_waiting_for_lock (pos 2) no_locks ≡ false
unfolding release_locks ℤ_discrete is_odd home_site on_copy deref_variable put_variable
    has_shared_lock has_exclusive_lock remove_exclusive_owner
release_locks_wakes_example =
    release_locks_wakes (pos 2) (pos 1) (pos 1 ∷ [])
      (record lock_3 { wait_for_graph = (pos 2, pos 1 ∷ []) ∷ [] }) (site_4 (some (pos 1)) [])
      {l' = no_locks} {sites' = site_4 none []} (refl, tt) refl refl refl

dump_cells-sites_of_example :
    dump_cells (pos 4) (new_variables (range 1 20)) ≡ shown (pos 4) (new_variables (range 1 20))
unfolding site_ids range ℤ_discrete ◌+ℤ◌ new_variables new_variable
dump_cells-sites_of_example = dump_cells-sites_of (pos 4) (new_variables (range 1 20)) refl refl
