-- ===== src/LockManager/Assign/Locks.antt =====
-- What `assign_write_lock` leaves at the copies.
use rep_crec.Base.{
  Bool, true, false, ◌≡◌, refl, sym, subst, ap, ◌∙◌, ◌&&◌, ◌==ℤ◌, inl, inr, Option, none, some, [],
  ◌∷◌, ℤ, Set, Map, mem, find, ok, err, arith, >>=-eq-ok, Option-cases, Bool-cases, null_pointer,
  out_of_range, ℤ_discrete, if◌then◌else◌,
}
use rep_crec.Variable.{
  Variable, has_exclusive_lock, has_shared_lock, remove_shared_owner, set_exclusive_transaction,
}
use rep_crec.Site.{is_write_available, get_variable, deref_variable}
use rep_crec.SiteManager.{SiteManager, on_copy, on_site, get_site}
use rep_crec.SiteManager.Copies.{copy, on_copy_lem, on_copy-eq-ok}
use rep_crec.Transaction.{Transaction}
use rep_crec.LockManager.Assign.{Locks, write_lock_at, assign_write_lock, lock_exclusive}
use rep_crec.LockManager.Hold.Take.{write_lock_at-Round}
use rep_crec.LockManager.Release.Sites.{availability, on_copy-availability, writable, writes_in}

-- Whether the transaction has the exclusive lock of the copy.
abbrev pub owns : ℤ → Option Variable → Bool
owns t none = false
owns t (some v) = has_exclusive_lock t v

-- Whether nobody else has it.
abbrev pub spared : ℤ → Option Variable → Bool
spared t none = true
spared t (some v) = elim v.exclusive_lock_owner [ none ↦ true | some owner ↦ owner ==ℤ t ]

lock_exclusive-owns :
    (t : ℤ) (v : Variable) → spared t (some v) ≡ true → owns t (some (lock_exclusive t v)) ≡ true
unfolding lock_exclusive set_exclusive_transaction has_exclusive_lock remove_shared_owner
lock_exclusive-owns t v h = elim (Option-cases v.exclusive_lock_owner) [
  | inl n ↦ elim (Bool-cases (has_shared_lock t v)) [
    | inl shared ↦ elim (Bool-cases (mem t v.shared_lock_owners)) [
      | inl m ↦ ground arith
      | inr m ↦ ground arith
    ]
    | inr not_shared ↦ ground arith
  ]
  | inr (o, e) ↦ elim (Bool-cases (has_shared_lock t v)) [
    | inl shared ↦ elim (Bool-cases (mem t v.shared_lock_owners)) [
      | inl m ↦ ground arith
      | inr m ↦ ground arith
    ]
    | inr not_shared ↦ ground arith
  ]
]

owns-spared : (t : ℤ) (o : Option Variable) → owns t o ≡ true → spared t o ≡ true
unfolding has_exclusive_lock
owns-spared t none h = refl
owns-spared t (some v) h = elim (Option-cases v.exclusive_lock_owner) [
  | inl n ↦ ground arith
  | inr (o, e) ↦ ground arith
]

module _ (transactions : Map Transaction) (t x : ℤ) where
  -- A site that is up is locked.
  write_lock_at-up :
      (sid : ℤ) (ls ls' : Locks)
      → write_lock_at transactions t x sid ls ≡ ok ls'
      → writable sid ls.1 ≡ true
      → on_copy sid x (lock_exclusive t) ls.1 ≡ ok ls'.1
  unfolding write_lock_at on_copy on_site get_site deref_variable is_write_available
  write_lock_at-up sid (l, sites) ls' e h = elim (Option-cases (find sid sites)) [
    | inl n ↦ absurd (ground arith)
    | inr (s, found) ↦ elim (Option-cases (get_variable x s)) [
      | inl n ↦ absurd (
          let k : write_lock_at transactions t x sid (l, sites) ≡ err null_pointer = ground arith in
          cc)
      | inr (v, at) ↦ elim (Option-cases (find t transactions)) [
        | inl n ↦ absurd (
            let k : write_lock_at transactions t x sid (l, sites) ≡ err out_of_range =
              ground arith in
            cc)
        | inr (tran, here) ↦ ground arith
      ]
    ]
  ]

  -- A round leaves the availability, the other copies, what is locked, and what nobody else has.
  abbrev Leaves : Set → SiteManager → SiteManager → Type 0
  Leaves sids m m' =
      ((a : ℤ) → availability a m' ≡ availability a m)
      × ((a : ℤ) → owns t (copy a x m) ≡ true → owns t (copy a x m') ≡ true)
      × ((a : ℤ) → spared t (copy a x m) ≡ true → spared t (copy a x m') ≡ true)
      × ((a b : ℤ) → (mem a sids && (b ==ℤ x)) ≡ false → copy a b m' ≡ copy a b m)

  abbrev relocked : Option Variable → Option Variable
  relocked none = none
  relocked (some v) = some (lock_exclusive t v)

  locked_copy :
      (a b sid : ℤ) (m m' : SiteManager)
      → on_copy sid x (lock_exclusive t) m ≡ ok m'
      → copy a b m' ≡ (if (a ==ℤ sid) && (b ==ℤ x) then relocked (copy a b m) else copy a b m)
  locked_copy a b sid m m' e = ground (arith, on_copy_lem a b sid x (lock_exclusive t) m e)

  relocked-owns : (o : Option Variable) → owns t o ≡ true → owns t (relocked o) ≡ true
  relocked-owns none h = h
  relocked-owns (some v) h = lock_exclusive-owns t v (owns-spared t (some v) h)

  relocked-spared : (o : Option Variable) → spared t o ≡ true → spared t (relocked o) ≡ true
  relocked-spared none h = h
  relocked-spared (some v) h = owns-spared t (some (lock_exclusive t v)) (lock_exclusive-owns t v h)

  locked_once :
      (sid : ℤ) (m m' : SiteManager)
      → on_copy sid x (lock_exclusive t) m ≡ ok m'
      → Leaves (sid ∷ []) m m' × (spared t (copy sid x m) ≡ true → owns t (copy sid x m') ≡ true)
  locked_once sid m m' e =
      let (s, v, found, at, p) = on_copy-eq-ok sid x (lock_exclusive t) m e in
      (
        (
          λ a. on_copy-availability a sid x (lock_exclusive t) m e,
          λ a h. ground (arith, locked_copy a x sid m m' e, relocked-owns (copy a x m)),
          λ a h. ground (arith, locked_copy a x sid m m' e, relocked-spared (copy a x m)),
          λ a b h. ground (arith, locked_copy a b sid m m' e),
        ),
        λ h.
            let q : copy sid x m' ≡ some (lock_exclusive t v) =
              ground (arith, locked_copy sid x sid m m' e) in
            ap (owns t) q ∙ lock_exclusive-owns t v (ground arith),
      )

  Leaves-trans :
      (sid : ℤ) (sids : Set) (m n o : SiteManager)
      → Leaves (sid ∷ []) m n
      → Leaves sids n o
      → Leaves (sid ∷ sids) m o
  Leaves-trans sid sids m n o p q = (
    λ a. q.0 a ∙ p.0 a,
    λ a h. q.1 a (p.1 a h),
    λ a h. q.2 a (p.2 a h),
    λ a b h. q.3 a b (ground arith) ∙ p.3 a b (ground arith),
  )

  Leaves-refl : (sids : Set) (m : SiteManager) → Leaves sids m m
  Leaves-refl sids m = (λ a. refl, λ a h. h, λ a h. h, λ a b h. refl)

  -- The loop over the sites leaves all other copies, and whether sites are up and copies can be read;
  -- at each of the sites that is up, where nobody else had the exclusive lock, the transaction has it.
  pub assign_write_lock-owns :
      (sids : Set) (ls ls' : Locks)
      → assign_write_lock transactions t sids x ls ≡ ok ls'
      → Leaves sids ls.1 ls'.1
        × ((a : ℤ)
            → mem a sids ≡ true
            → writable a ls.1 ≡ true
            → spared t (copy a x ls.1) ≡ true
            → owns t (copy a x ls'.1) ≡ true)
  unfolding assign_write_lock
  assign_write_lock-owns [] ls ls' e =
      let p : ls ≡ ls' = cc in
      (subst (λ y. Leaves [] ls.1 y.1) p (Leaves-refl [] ls.1), λ a h. absurd cc)
  assign_write_lock-owns (sid ∷ sids) ls ls' e =
      let (n, first, rest) =
        >>=-eq-ok (write_lock_at transactions t x sid ls) (assign_write_lock transactions t sids x)
          e in
      let (leaves, owned) = assign_write_lock-owns sids n ls' rest in
      let one = round sid ls n first in
      (
        Leaves-trans sid sids ls.1 n.1 ls'.1 one leaves,
        λ a m up free. elim (ℤ_discrete a sid) [
          | yes p ↦
              let up' : writable sid ls.1 ≡ true = subst (λ y. writable y ls.1 ≡ true) p up in
              let free' : spared t (copy sid x ls.1) ≡ true =
                subst (λ y. spared t (copy y x ls.1) ≡ true) p free in
              let got = (locked_once sid ls.1 n.1 (write_lock_at-up sid ls n first up')).1 free' in
              leaves.1 a (subst (λ y. owns t (copy y x n.1) ≡ true) (sym p) got)
          | no p ↦ owned a (ground arith) (ap writes_in (one.0 a) ∙ up) (one.2 a free)
        ],
      )
    where
      round :
          (sid : ℤ) (ls n : Locks)
          → write_lock_at transactions t x sid ls ≡ ok n
          → Leaves (sid ∷ []) ls.1 n.1
      round sid ls n e = elim (write_lock_at-Round transactions t x sid ls n e) [
        | inl p ↦ subst (λ y. Leaves (sid ∷ []) ls.1 y.1) (sym p) (Leaves-refl (sid ∷ []) ls.1)
        | inr (_, c, _) ↦ (locked_once sid ls.1 n.1 c).0
      ]
