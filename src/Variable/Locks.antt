-- ===== src/Variable/Locks.antt =====
-- The lock state of one copy: who holds it, and what taking and giving up a lock changes.
use rep_crec.Base.{true, false, ◌≡◌, refl, none, some, [], ◌∷◌, ℤ, Set, mem, remove, arith}
use rep_crec.Variable.{
  Variable, has_shared_lock, has_exclusive_lock, has_shared_lock_exclude_self,
  has_exclusive_lock_exclude_self,
}

-- Nobody holds a lock.
abbrev pub IsFree : Variable → Type 0
IsFree v = (v.exclusive_lock_owner ≡ none) × (v.shared_lock_owners ≡ [])

-- The exclusive lock shuts out the locks of all others.
abbrev pub IsExclusive : Variable → Type 0
IsExclusive v =
    (owner : ℤ)
    → v.exclusive_lock_owner ≡ some owner
    → (t : ℤ) → mem t v.shared_lock_owners ≡ true
    → t ≡ owner

-- A copy at which a transaction neither waits nor holds a lock is free.
pub IsFree-of_tests :
    (t : ℤ) (v : Variable)
    → has_exclusive_lock_exclude_self t v ≡ false
    → has_shared_lock_exclude_self t v ≡ false
    → has_shared_lock t v ≡ false
    → has_exclusive_lock t v ≡ false
    → IsFree v
unfolding has_exclusive_lock_exclude_self has_shared_lock_exclude_self has_shared_lock
    has_exclusive_lock
IsFree-of_tests t v a b c d = ground arith

remove-nil : (t : ℤ) (s : Set) → mem t s ≡ false → remove t s ≡ s
remove-nil t [] h = refl
remove-nil t (x ∷ s) h = ground (arith, remove-nil t s)
