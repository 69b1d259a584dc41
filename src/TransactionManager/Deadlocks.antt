-- ===== src/TransactionManager/Deadlocks.antt =====
-- The loop that breaks deadlocks: it ends, and leaves none.
pub mod Step
pub mod Loop
use rep_crec.Base.{
  Bool, true, false, ◌≡◌, ◌≢◌, refl, sym, subst, ap, ◌∙◌, Option, some, none, [], ◌∷◌, List, ℤ,
  ◌<ℤ◌, Map, Set, mem, find, find_or, erase, arith,
}
use rep_crec.LockManager.{is_waiting}
use rep_crec.LockManager.Release.Frees.{sites_of}
use rep_crec.LockManager.Hold.{present}
use rep_crec.SiteManager.{SiteManager}
use rep_crec.Transaction.{Transaction}
use rep_crec.TransactionManager.{TransactionManager, AgeSet}

-- Every entry is a known transaction with its time.
abbrev pub Aged : Map Transaction → AgeSet → Type 0
Aged ts [] = Unit {0}
Aged ts ((time, id) ∷ s) =
    ((t : Transaction) × (find id ts ≡ some t) × (t.timestamp ≡ time)) × Aged ts s

abbrev pub Before : ℤ → AgeSet → Type 0
Before time [] = Unit {0}
Before time ((u, id) ∷ s) = (u <ℤ time) × Before time s

-- The youngest stand first, and no two are of one time.
abbrev pub Descending : AgeSet → Type 0
Descending [] = Unit {0}
Descending ((time, id) ∷ s) = Before time s × Descending s

abbrev pub ids : AgeSet → List ℤ
ids [] = []
ids ((time, id) ∷ s) = id ∷ ids s

-- The set of the transactions by age says what the map of the transactions says, everybody who waits
-- is in it, and the copies of each variable that is listed as locked are there.
pub record Breakable (tm : TransactionManager) : Type 0 where
  pub aged : Aged tm.transactions tm.transactions_set
  pub descending : Descending tm.transactions_set
  pub waiters :
      (t : ℤ)
      → is_waiting t tm.lock_manager.wait_for_graph ≡ true
      → mem t (ids tm.transactions_set) ≡ true
  pub there :
      (t x sid : ℤ)
      → mem x (find_or [] t tm.lock_manager.lock_table) ≡ true
      → mem sid (sites_of x) ≡ true
      → present sid x tm.site_manager ≡ true
