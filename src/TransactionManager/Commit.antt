-- ===== src/TransactionManager/Commit.antt =====
-- `Transaction::commit`.
pub mod Install
pub mod Atomic
pub mod Check
pub mod Snapshot
use rep_crec.Base.{Bool, true, false, not, List, [], ◌∷◌, ℤ, Map, if◌then◌else◌, Result, ok}
use rep_crec.Base
use rep_crec.Site.{is_read_available, is_write_available, assign_var, set_read_available}
use rep_crec.SiteManager.{SiteManager, get_site, on_site}
use rep_crec.Transaction.{Transaction, Records}
use rep_crec.TransactionManager.{Action, ◌>>=◌, ◌>>◌, pure, asks, modify, abort_transaction}

-- Every site that was written to is up.
unfoldable pub writes_available : Records → SiteManager → Result Bool
writes_available [] sites = ok true
writes_available ((site_id, _) ∷ r) sites =
    let rest = writes_available r sites in
    Base.◌>>=◌ (get_site site_id sites) λ s. if not (is_write_available s) then ok false else rest

unfoldable pub vars_available : ℤ → Map ℤ → SiteManager → Result Bool
vars_available site_id [] sites = ok true
vars_available site_id ((var_id, _) ∷ vars) sites =
    let rest = vars_available site_id vars sites in
    Base.◌>>=◌ (get_site site_id sites)
      λ s. if not (is_read_available var_id s) then ok false else rest

-- Every copy that was read can be read still.
unfoldable pub reads_available : Records → SiteManager → Result Bool
unfolding vars_available
reads_available [] sites = ok true
reads_available ((site_id, vars) ∷ r) sites =
    let rest = reads_available r sites in
    Base.◌>>=◌ (vars_available site_id vars sites) λ b. if b then rest else ok false

unfoldable pub apply_vars : ℤ → ℤ → Map ℤ → SiteManager → Result SiteManager
apply_vars commit_time site_id [] sites = ok sites
apply_vars commit_time site_id ((var_id, var) ∷ vars) sites =
    Base.◌>>=◌
      (on_site site_id
        (λ s.
          Base.◌>>=◌ (assign_var var_id var commit_time s) λ s'. ok (set_read_available var_id s'))
        sites)
      λ sites'. apply_vars commit_time site_id vars sites'

unfoldable pub apply_records : ℤ → Records → SiteManager → Result SiteManager
unfolding apply_vars
apply_records commit_time [] sites = ok sites
apply_records commit_time ((site_id, vars) ∷ r) sites = Base.◌>>=◌ (get_site site_id sites) λ s.
    Base.◌>>=◌ (apply_vars commit_time site_id vars sites)
      λ sites'. apply_records commit_time r sites'

unfoldable pub apply_writes : ℤ → Transaction → Action Bool
unfolding apply_records
apply_writes commit_time t =
    asks (λ tm. apply_records commit_time t.write_records tm.site_manager) >>= λ sites.
    modify (λ tm. record tm { site_manager = sites }) >> pure true

unfoldable pub commit : ℤ → Transaction → Action Bool
unfolding writes_available reads_available apply_writes
commit commit_time t = do
  written ← asks (λ tm. writes_available t.write_accessed_sites tm.site_manager)
  if not written then abort_transaction t.transaction_id >> pure false else (do
    readable ← asks (λ tm. reads_available t.read_accessed_sites tm.site_manager)
    if not readable
        then abort_transaction t.transaction_id >> pure false
        else apply_writes commit_time t)
