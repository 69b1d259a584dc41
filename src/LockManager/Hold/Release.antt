-- ===== src/LockManager/Hold/Release.antt =====
-- Giving up all locks.
use rep_crec.Base.{
  true, false, ◌≡◌, ◌≢◌, subst, sym, ap, ◌∙◌, inl, inr, none, some, Option, [], ℤ, Map, mem,
  find_or, erase, is_some, arith, ok, Bool-cases, find-erase_ne, find-erase_self, >>=-eq-ok,
}
use rep_crec.Variable.{Variable}
use rep_crec.SiteManager.{SiteManager}
use rep_crec.SiteManager.Copies.{copy}
use rep_crec.Transaction.{Transaction}
use rep_crec.LockManager.{LockManager}
use rep_crec.LockManager.Release.{release_locks, unlock_all, release_waiters}
use rep_crec.LockManager.Release.Frees.{IsUnlocked, SameFor, release_locks_frees, unlock_all_lem}
use rep_crec.LockManager.Hold.{holds_copy, locked, present, LockInv}

-- The parts of a successful release.
pub release_locks-eq-ok :
    (t : ℤ) (l : LockManager) (sites : SiteManager) {l' : LockManager} {sites' : SiteManager}
    → release_locks t (l, sites) ≡ ok (l', sites')
    → (unlock_all t (find_or [] t l.lock_table) sites ≡ ok sites')
      × (l'.lock_table ≡ erase t l.lock_table)
      × (l'.wait_for_graph ≡ release_waiters t l.wait_for_graph)
unfolding release_locks
release_locks-eq-ok t l sites {l'} {sites'} e =
    let (n, first, rest) =
      >>=-eq-ok (unlock_all t (find_or [] t l.lock_table) sites)
        (λ m. ok (
          record {
            lock_table = erase t l.lock_table;
            wait_for_graph = release_waiters t l.wait_for_graph;
          },
          m,
        ))
        e in
    (ground arith, ground arith, ground arith)

pub SameFor-present : (t : ℤ) (o p : Option Variable) → SameFor t o p → is_some p ≡ is_some o
SameFor-present t none p s = ap is_some s
SameFor-present t (some v) (some w) s = cc
SameFor-present t (some v) none s = absurd s

SameFor-holds :
    (t u : ℤ) (o p : Option Variable) → u ≢ t → SameFor t o p → holds_copy u p ≡ holds_copy u o
SameFor-holds t u none p h s = ap (holds_copy u) s
SameFor-holds t u (some v) (some w) h s = let (x, y) = s.2 u h in ground arith
SameFor-holds t u (some v) none h s = absurd s

IsUnlocked-holds : (t : ℤ) (o : Option Variable) → IsUnlocked t o → holds_copy t o ≡ false
IsUnlocked-holds t none h = cc
IsUnlocked-holds t (some v) h = ground arith

holds_copy-IsUnlocked : (t : ℤ) (o : Option Variable) → holds_copy t o ≡ false → IsUnlocked t o
holds_copy-IsUnlocked t none h = tt
holds_copy-IsUnlocked t (some v) h = (ground arith, ground arith)

module _ (t : ℤ) (l : LockManager) (sites : SiteManager) {l' : LockManager} {sites' : SiteManager}
    (e : release_locks t (l, sites) ≡ ok (l', sites')) (transactions : Map Transaction)
    (i : LockInv l.lock_table transactions sites) where
  released-present : (a b : ℤ) → present a b sites' ≡ present a b sites
  released-present a b =
      SameFor-present t (copy a b sites) (copy a b sites') ((release_locks_frees t l sites e).1 a b)

  released-others : (u a b : ℤ) → u ≢ t → locked u a b sites' ≡ locked u a b sites
  released-others u a b h =
      SameFor-holds t u (copy a b sites) (copy a b sites') h
        ((release_locks_frees t l sites e).1 a b)

  -- After a release the transaction holds no lock anywhere, whatever the lock table says.
  pub release_locks-locked : (a b : ℤ) → locked t a b sites' ≡ false
  release_locks-locked a b = elim (Bool-cases (locked t a b sites)) [
    | inl h ↦
        IsUnlocked-holds t (copy a b sites')
          ((release_locks_frees t l sites e).0 b a (i.listed a b t h) (i.placed a b t h))
    | inr h ↦ IsUnlocked-holds t (copy a b sites') (
        ((unlock_all_lem t (find_or [] t l.lock_table) sites sites'
              (release_locks-eq-ok t l sites e).0).0
            a b).1
          (holds_copy-IsUnlocked t (copy a b sites) h))
  ]

  not_self : (u a b : ℤ) → locked u a b sites' ≡ true → u ≢ t
  not_self u a b h p = absurd (
      let q : locked t a b sites' ≡ true = subst (λ y. locked y a b sites' ≡ true) p h in
      let r = release_locks-locked a b in cc)

  pub release_locks-LockInv : LockInv l'.lock_table transactions sites'
  release_locks-LockInv = record {
    sole = λ a b v w h k. i.sole a b v w (old v a b h) (old w a b k);
    listed = λ a b v h.
        subst (λ y. mem b (find_or [] v y) ≡ true) (sym table)
          (ground (
            arith,
            i.listed a b v (old v a b h),
            find-erase_ne v t l.lock_table (not_self v a b h),
          ));
    placed = λ a b v h. i.placed a b v (old v a b h);
    numbered = λ a b h. i.numbered a b (sym (released-present a b) ∙ h);
    live = λ v h.
        i.live v
          (ground (arith, find-erase_ne v t l.lock_table, find-erase_self t l.lock_table, table));
    known = i.known;
  }
    where
      table : l'.lock_table ≡ erase t l.lock_table
      table = (release_locks-eq-ok t l sites e).1

      old : (v a b : ℤ) → locked v a b sites' ≡ true → locked v a b sites ≡ true
      old v a b h = sym (released-others v a b (not_self v a b h)) ∙ h
