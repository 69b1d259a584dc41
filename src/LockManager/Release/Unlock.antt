-- ===== src/LockManager/Release/Unlock.antt =====
-- What giving up the locks does to one copy.
use rep_crec.Base.{false, ◌≡◌, ◌≢◌, ℤ, mem-remove_self, mem-remove_ne, arith}
use rep_crec.Variable.{
  Variable, has_shared_lock, has_exclusive_lock, remove_shared_owner, remove_exclusive_owner,
}
use rep_crec.LockManager.Release.{unlock}

-- After a transaction gave up its locks at a copy it holds none there, every other transaction holds
-- the locks that it held, and the value and the versions are as before.
pub unlock_lem :
    (t : ℤ) (v : Variable)
    → (has_exclusive_lock t (unlock t v) ≡ false)
      × (has_shared_lock t (unlock t v) ≡ false)
      × ((u : ℤ)
          → u ≢ t
          → (has_exclusive_lock u (unlock t v) ≡ has_exclusive_lock u v)
            × (has_shared_lock u (unlock t v) ≡ has_shared_lock u v))
      × ((unlock t v).value ≡ v.value)
      × ((unlock t v).versions ≡ v.versions)
unfolding unlock has_exclusive_lock has_shared_lock remove_shared_owner remove_exclusive_owner
unlock_lem t v = (
  ground arith,
  ground (arith, mem-remove_self t v.shared_lock_owners),
  λ u h. (ground arith, ground (arith, mem-remove_ne u t v.shared_lock_owners h)),
  ground arith,
  ground arith,
)
