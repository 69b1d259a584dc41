-- ===== src/LockManager/Acquire/Owners.antt =====
-- Whom a transaction is told to wait for.
use rep_crec.Base.{true, false, ◌≡◌, refl, [], ◌∷◌, ℤ, Set, add, arith}
use rep_crec.Variable.{
  Variable, has_shared_lock, has_shared_lock_exclude_self, has_exclusive_lock_exclude_self,
}
use rep_crec.LockManager.{is_empty}
use rep_crec.LockManager.Acquire.{add_owner, add_all, collect_owners, must_wait}

add_nonempty : (a : ℤ) (s : Set) → is_empty (add a s) ≡ false
add_nonempty a [] = refl
add_nonempty a (x ∷ s) = ground arith

add_all_nonempty : (ts s : Set) → is_empty s ≡ false → is_empty (add_all ts s) ≡ false
unfolding add_all
add_all_nonempty [] s h = h
add_all_nonempty (t ∷ ts) s h = add_all_nonempty ts (add t s) (add_nonempty t s)

add_all_cons_nonempty : (t : ℤ) (ts s : Set) → is_empty (add_all (t ∷ ts) s) ≡ false
unfolding add_all
add_all_cons_nonempty t ts s = add_all_nonempty ts (add t s) (add_nonempty t s)

-- Whoever must wait at a copy waits for somebody.
pub collect_nonempty :
    (t : ℤ) (v : Variable) (s : Set)
    → must_wait t v ≡ true
    → is_empty (collect_owners t v s) ≡ false
unfolding must_wait collect_owners add_owner has_exclusive_lock_exclude_self
    has_shared_lock_exclude_self has_shared_lock
collect_nonempty t v s h = grind (arith, add_nonempty, add_all_nonempty, add_all_cons_nonempty)
