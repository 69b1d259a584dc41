-- ===== src/LockManager/Release/Frees.antt =====
-- `release_locks` over all copies.
use rep_crec.LockManager.{LockManager, is_waiting_for_lock}
use rep_crec.Base.{
  Result-cases, find_or, erase, find-erase_self, find, ap, inr, inl, Bool-cases, true, false, ◌≡◌,
  refl, sym, subst, ◌∙◌, ◌≢◌, Option, none, some, List, [], ◌∷◌, ℤ, ℤ_discrete, ◌==ℤ◌, Set, mem,
  arith, if◌then◌else◌, ok, >>=-eq-ok, ◌&&◌,
}
use rep_crec.Global.{is_odd, home_site}
use rep_crec.Variable.{Variable, has_shared_lock, has_exclusive_lock}
use rep_crec.SiteManager.{SiteManager, site_ids, on_copy}
use rep_crec.SiteManager.Copies.{copy, on_copy_lem}
use rep_crec.LockManager.Release.{
  erase_all, emptied, release_locks, release_waiters, unlock, unlock_at, unlock_all,
}
use rep_crec.LockManager.Release.Unlock.{unlock_lem}

-- The transaction holds no lock of the copy, if the copy is there.
abbrev pub IsUnlocked : ℤ → Option Variable → Type 0
IsUnlocked t none = Unit {0}
IsUnlocked t (some v) = (has_exclusive_lock t v ≡ false) × (has_shared_lock t v ≡ false)

-- The copy is the same but for the locks of the transaction.
abbrev pub SameFor : ℤ → Option Variable → Option Variable → Type 0
SameFor t none o = o ≡ none
SameFor t (some v) none = ⊥
SameFor t (some v) (some w) =
    (w.value ≡ v.value)
    × (w.versions ≡ v.versions)
    × ((u : ℤ)
        → u ≢ t
        → (has_exclusive_lock u w ≡ has_exclusive_lock u v)
          × (has_shared_lock u w ≡ has_shared_lock u v))

SameFor-refl : (t : ℤ) (o : Option Variable) → SameFor t o o
SameFor-refl t none = refl
SameFor-refl t (some v) = (refl, refl, λ u h. (refl, refl))

SameFor-trans : (t : ℤ) (o p q : Option Variable) → SameFor t o p → SameFor t p q → SameFor t o q
SameFor-trans t none none q a b = b
SameFor-trans t none (some w) q a b = absurd cc
SameFor-trans t (some v) (some w) (some x) a b =
    (b.0 ∙ a.0, b.1 ∙ a.1, λ u h. ((b.2 u h).0 ∙ (a.2 u h).0, (b.2 u h).1 ∙ (a.2 u h).1))
SameFor-trans t (some v) none q a b = absurd a
SameFor-trans t (some v) (some w) none a b = absurd b

abbrev unlocked : ℤ → Option Variable → Option Variable
unlocked t none = none
unlocked t (some v) = some (unlock t v)

unlocked-IsUnlocked : (t : ℤ) (o : Option Variable) → IsUnlocked t (unlocked t o)
unlocked-IsUnlocked t none = tt
unlocked-IsUnlocked t (some v) = ((unlock_lem t v).0, (unlock_lem t v).1)

unlocked-SameFor : (t : ℤ) (o : Option Variable) → SameFor t o (unlocked t o)
unlocked-SameFor t none = refl
unlocked-SameFor t (some v) = ((unlock_lem t v).3, (unlock_lem t v).4, (unlock_lem t v).2)

-- The sites that hold a variable.
abbrev pub sites_of : ℤ → List ℤ
sites_of vid = if is_odd vid then home_site vid ∷ [] else site_ids

module _ (t : ℤ) where
  step_copy :
      (a b sid vid : ℤ) (m m' : SiteManager)
      → on_copy sid vid (unlock t) m ≡ ok m'
      → copy a b m' ≡ (if (a ==ℤ sid) && (b ==ℤ vid) then unlocked t (copy a b m) else copy a b m)
  step_copy a b sid vid m m' e = ground (arith, on_copy_lem a b sid vid (unlock t) m e)

  -- Each copy is unlocked, or as it was.
  step_cases :
      (a b sid vid : ℤ) (m m' : SiteManager)
      → on_copy sid vid (unlock t) m ≡ ok m'
      → SameFor t (copy a b m) (copy a b m')
        × (IsUnlocked t (copy a b m) → IsUnlocked t (copy a b m'))
  step_cases a b sid vid m m' e = elim (Bool-cases ((a ==ℤ sid) && (b ==ℤ vid))) [
    | inl hit ↦
        let p : copy a b m' ≡ unlocked t (copy a b m) =
          ground (arith, step_copy a b sid vid m m' e) in
        (
          subst (SameFor t (copy a b m)) (sym p) (unlocked-SameFor t (copy a b m)),
          λ _. subst (IsUnlocked t) (sym p) (unlocked-IsUnlocked t (copy a b m)),
        )
    | inr miss ↦
        let p : copy a b m' ≡ copy a b m = ground (arith, step_copy a b sid vid m m' e) in
        (
          subst (SameFor t (copy a b m)) (sym p) (SameFor-refl t (copy a b m)),
          λ h. subst (IsUnlocked t) (sym p) h,
        )
  ]

  step_unlocks :
      (sid vid : ℤ) (m m' : SiteManager)
      → on_copy sid vid (unlock t) m ≡ ok m'
      → IsUnlocked t (copy sid vid m')
  step_unlocks sid vid m m' e =
      let p : copy sid vid m' ≡ unlocked t (copy sid vid m) =
        ground (arith, step_copy sid vid sid vid m m' e) in
      subst (IsUnlocked t) (sym p) (unlocked-IsUnlocked t (copy sid vid m))

  -- What a part of the release keeps: the copies but for the transaction's locks, and what it has
  -- given up.
  abbrev Keeps : SiteManager → SiteManager → Type 0
  Keeps m m' =
      (a b : ℤ)
      → SameFor t (copy a b m) (copy a b m')
        × (IsUnlocked t (copy a b m) → IsUnlocked t (copy a b m'))

  Keeps-trans : (m n o : SiteManager) → Keeps m n → Keeps n o → Keeps m o
  Keeps-trans m n o p q a b = (
    SameFor-trans t (copy a b m) (copy a b n) (copy a b o) (p a b).0 (q a b).0,
    λ h. (q a b).1 ((p a b).1 h),
  )

  pub unlock_at_lem :
      (vid : ℤ) (sids : List ℤ) (m m' : SiteManager)
      → unlock_at t vid sids m ≡ ok m'
      → Keeps m m' × ((sid : ℤ) → mem sid sids ≡ true → IsUnlocked t (copy sid vid m'))
  unfolding unlock_at
  unlock_at_lem vid [] m m' e =
      let p : m ≡ m' = cc in
      (
        λ a b.
            subst
              (λ x.
                SameFor t (copy a b m) (copy a b x)
                × (IsUnlocked t (copy a b m) → IsUnlocked t (copy a b x)))
              p (SameFor-refl t (copy a b m), λ h. h),
        λ sid h. absurd cc,
      )
  unlock_at_lem vid (s ∷ sids) m m' e =
      let (n, first, rest) = >>=-eq-ok (on_copy s vid (unlock t) m) (unlock_at t vid sids) e in
      let one = λ (a b : ℤ). step_cases a b s vid m n first in
      let (keeps, all) = unlock_at_lem vid sids n m' rest in
      (
        Keeps-trans m n m' one keeps,
        λ sid h. elim (ℤ_discrete sid s) [
          | yes p ↦
              (keeps sid vid).1
                (subst (λ x. IsUnlocked t (copy x vid n)) (sym p) (step_unlocks s vid m n first))
          | no p ↦ all sid (ground arith)
        ],
      )

  pub unlock_all_lem :
      (vids : Set) (m m' : SiteManager)
      → unlock_all t vids m ≡ ok m'
      → Keeps m m'
        × ((vid sid : ℤ)
            → mem vid vids ≡ true
            → mem sid (sites_of vid) ≡ true
            → IsUnlocked t (copy sid vid m'))
  unfolding unlock_all
  unlock_all_lem [] m m' e =
      let p : m ≡ m' = cc in
      (
        λ a b.
            subst
              (λ x.
                SameFor t (copy a b m) (copy a b x)
                × (IsUnlocked t (copy a b m) → IsUnlocked t (copy a b x)))
              p (SameFor-refl t (copy a b m), λ h. h),
        λ vid sid h k. absurd cc,
      )
  unlock_all_lem (v ∷ vids) m m' e =
      let (n, first, rest) = >>=-eq-ok (unlock_at t v (sites_of v) m) (unlock_all t vids) e in
      let (keeps, done) = unlock_at_lem v (sites_of v) m n first in
      let (keeps', all) = unlock_all_lem vids n m' rest in
      (
        Keeps-trans m n m' keeps keeps',
        λ vid sid h k. elim (ℤ_discrete vid v) [
          | yes p ↦ (keeps' sid vid).1 (
              subst (λ x. IsUnlocked t (copy sid x n)) (sym p)
                (done sid (subst (λ x. mem sid (sites_of x) ≡ true) p k)))
          | no p ↦ all vid sid (ground arith) k
        ],
      )

-- A release that succeeds takes all locks of the variables that the lock table lists for the
-- transaction, at every site that holds them; no copy changes but for locks of the transaction; and
-- the table lists nothing for it any more.
pub release_locks_frees :
    (t : ℤ) (l : LockManager) (sites : SiteManager) {l' : LockManager} {sites' : SiteManager}
    → release_locks t (l, sites) ≡ ok (l', sites')
    → ((vid sid : ℤ)
        → mem vid (find_or [] t l.lock_table) ≡ true
        → mem sid (sites_of vid) ≡ true
        → IsUnlocked t (copy sid vid sites'))
      × ((a b : ℤ) → SameFor t (copy a b sites) (copy a b sites'))
      × (find t l'.lock_table ≡ none)
unfolding release_locks
release_locks_frees t l sites {l'} {sites'} e =
    let (n, first, rest) =
      >>=-eq-ok (unlock_all t (find_or [] t l.lock_table) sites) (λ m. ok (released l, m)) e in
    let p : n ≡ sites' = cc in
    let q : l'.lock_table ≡ erase t l.lock_table = ground arith in
    let (keeps, all) = unlock_all_lem t (find_or [] t l.lock_table) sites n first in
    (
      subst
          (λ m.
            (vid sid : ℤ)
            → mem vid (find_or [] t l.lock_table) ≡ true
            → mem sid (sites_of vid) ≡ true
            → IsUnlocked t (copy sid vid m))
          p all,
      subst (λ m. (a b : ℤ) → SameFor t (copy a b sites) (copy a b m)) p (λ a b. (keeps a b).0),
      ap (find t) q ∙ find-erase_self t l.lock_table,
    )
  where
    released : LockManager → LockManager
    released k = record {
      lock_table = erase t k.lock_table;
      wait_for_graph = release_waiters t k.wait_for_graph;
    }

-- After a release that succeeds the released transaction waits for nobody.
pub release_locks-is_waiting_for_lock :
    (t : ℤ) (l : LockManager) (sites : SiteManager) {l' : LockManager} {sites' : SiteManager}
    → release_locks t (l, sites) ≡ ok (l', sites')
    → is_waiting_for_lock t l' ≡ false
unfolding release_locks release_waiters is_waiting_for_lock
release_locks-is_waiting_for_lock t l sites {l'} {sites'} e =
    elim (Result-cases (unlock_all t (find_or [] t l.lock_table) sites)) [
      | inl (n, first) ↦
          ground
            (arith, find-erase_self t (erase_all (emptied t l.wait_for_graph) l.wait_for_graph))
      | inr (x, first) ↦ absurd (ground arith)
    ]
