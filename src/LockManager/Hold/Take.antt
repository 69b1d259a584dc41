-- ===== src/LockManager/Hold/Take.antt =====
-- Taking a lock at copies that nobody else has locked.
use rep_crec.Base.{
  true, ◌≡◌, refl, subst, sym, ap, ◌∙◌, ◌&&◌, ◌⊎◌, inl, inr, Option, none, some, [], ℤ, ◌==ℤ◌, Map,
  Set, mem, add, find_or, contains, find, find-insert_self, find-insert_ne, is_some, arith, ok, err,
  ℤ_discrete, Bool-cases, Option-cases, mem-add, if◌then◌else◌, null_pointer, out_of_range,
  mem-remove_ne,
}
use rep_crec.Variable.{
  Variable, has_shared_lock, has_exclusive_lock, add_shared_transaction, set_exclusive_transaction,
  remove_shared_owner,
}
use rep_crec.Site.{deref_variable, is_write_available, is_read_available, get_variable}
use rep_crec.Global.{is_odd, home_site}
use rep_crec.LockManager.Release.Frees.{sites_of}
use rep_crec.SiteManager.{site_ids, SiteManager, on_copy, get_site, on_site}
use rep_crec.SiteManager.Copies.{copy, on_copy-eq-ok, on_copy_lem}
use rep_crec.Transaction.{Transaction}
use rep_crec.LockManager.{insert_at}
use rep_crec.LockManager.Assign.{Locks, note_lock, lock_exclusive, write_lock_at, share_lock_at}
use rep_crec.LockManager.Hold.{holds, holds_copy, locked, present, LockInv, Ours}

-- A change of a copy that gives a lock to nobody but the transaction.
abbrev pub Gives : ℤ → (Variable → Variable) → Type 0
Gives t f = (u : ℤ) (v : Variable) → holds u (f v) ≡ true → (u ≡ t) ⊎ (holds u v ≡ true)

pub lock_exclusive-Gives : (t : ℤ) → Gives t (lock_exclusive t)
unfolding lock_exclusive set_exclusive_transaction remove_shared_owner has_shared_lock
    has_exclusive_lock
lock_exclusive-Gives t u v h = elim (ℤ_discrete u t) [
  | yes p ↦ inl p
  | no p ↦ inr (ground (arith, mem-remove_ne u t v.shared_lock_owners p))
]

pub add_shared-Gives : (t : ℤ) → Gives t (λ v. (add_shared_transaction t v).0)
unfolding add_shared_transaction has_shared_lock has_exclusive_lock
add_shared-Gives t u v h = elim (ℤ_discrete u t) [ yes p ↦ inl p | no p ↦ inr (ground arith) ]

mem-insert_at_self : (k x : ℤ) (m : Map Set) → mem x (find_or [] k (insert_at k x m)) ≡ true
unfolding insert_at
mem-insert_at_self k x m =
    ground (arith, find-insert_self k (add x (find_or [] k m)) m, mem-add x x (find_or [] k m))

mem-insert_at :
    (j k x y : ℤ) (m : Map Set)
    → mem y (find_or [] j m) ≡ true
    → mem y (find_or [] j (insert_at k x m)) ≡ true
unfolding insert_at
mem-insert_at j k x y m h = elim (ℤ_discrete j k) [
  | yes p ↦
      ground (arith, find-insert_self k (add x (find_or [] k m)) m, mem-add y x (find_or [] k m))
  | no p ↦ ground (arith, find-insert_ne j k (add x (find_or [] k m)) m p)
]

contains-insert_at :
    (j k x : ℤ) (m : Map Set)
    → contains j (insert_at k x m) ≡ true
    → (j ≡ k) ⊎ (contains j m ≡ true)
unfolding insert_at
contains-insert_at j k x m h = elim (ℤ_discrete j k) [
  | yes p ↦ inl p
  | no p ↦ inr (ground (arith, find-insert_ne j k (add x (find_or [] k m)) m p))
]

module _ (t x : ℤ) (f : Variable → Variable) (gives : Gives t f) where
  abbrev changed : Option Variable → Option Variable
  changed none = none
  changed (some v) = some (f v)

  changed_cases :
      (u : ℤ) (o : Option Variable)
      → holds_copy u (changed o) ≡ true
      → (u ≡ t) ⊎ (holds_copy u o ≡ true)
  changed_cases u none h = inr h
  changed_cases u (some v) h = gives u v h

  changed-present : (o : Option Variable) → is_some (changed o) ≡ is_some o
  changed-present none = refl
  changed-present (some v) = refl

  module _ (sid : ℤ) (sites : SiteManager) {sites' : SiteManager}
      (e : on_copy sid x f sites ≡ ok sites') where
    taken_copy :
        (a b : ℤ)
        → copy a b sites'
          ≡ (if (a ==ℤ sid) && (b ==ℤ x) then changed (copy a b sites) else copy a b sites)
    taken_copy a b = ground (arith, on_copy_lem a b sid x f sites e)

    -- Who holds a lock afterwards.
    taken_cases :
        (a b u : ℤ)
        → locked u a b sites' ≡ true
        → ((a ≡ sid) × (b ≡ x) × (u ≡ t)) ⊎ (locked u a b sites ≡ true)
    taken_cases a b u h = elim (Bool-cases ((a ==ℤ sid) && (b ==ℤ x))) [
      | inl hit ↦
          let p : copy a b sites' ≡ changed (copy a b sites) = ground (arith, taken_copy a b) in
          elim (changed_cases u (copy a b sites) (sym (ap (holds_copy u) p) ∙ h)) [
            | inl q ↦ inl (ground arith, ground arith, q)
            | inr q ↦ inr q
          ]
      | inr miss ↦
          let p : copy a b sites' ≡ copy a b sites = ground (arith, taken_copy a b) in
          inr (sym (ap (holds_copy u) p) ∙ h)
    ]

    taken-present : (a b : ℤ) → present a b sites' ≡ present a b sites
    taken-present a b = elim (Bool-cases ((a ==ℤ sid) && (b ==ℤ x))) [
      | inl hit ↦
          let p : copy a b sites' ≡ changed (copy a b sites) = ground (arith, taken_copy a b) in
          ap is_some p ∙ changed-present (copy a b sites)
      | inr miss ↦
          let p : copy a b sites' ≡ copy a b sites = ground (arith, taken_copy a b) in ap is_some p
    ]

    pub taken-Ours : (sids : Set) → Ours t sids x sites → Ours t sids x sites'
    taken-Ours sids o =
        (λ k u m h. elim (taken_cases k x u h) [ inl (_, _, q) ↦ q | inr q ↦ o.0 k u m q ], o.1)

    taken_there : present sid x sites ≡ true
    taken_there = let (s, v, found, at, p) = on_copy-eq-ok sid x f sites e in ground arith

    taken-sites_of :
        (is_odd x ≡ true → sid ≡ home_site x)
        → mem sid site_ids ≡ true
        → mem sid (sites_of x) ≡ true
    taken-sites_of home h = elim (Bool-cases (is_odd x)) [
      | inl odd ↦ let p = home odd in ground arith
      | inr even ↦ ground arith
    ]

    pub taken-LockInv :
        (table : Map Set) (transactions : Map Transaction)
        → contains t transactions ≡ true
        → ((u : ℤ) → locked u sid x sites ≡ true → u ≡ t)
        → (is_odd x ≡ true → sid ≡ home_site x)
        → LockInv table transactions sites
        → LockInv (insert_at t x table) transactions sites'
    taken-LockInv table transactions here ours home i = record {
      sole = λ a b v w h k. elim (taken_cases a b v h) [
        | inl (p, q, r) ↦ elim (taken_cases a b w k) [
          | inl (_, _, z) ↦ r ∙ sym z
          | inr z ↦ r ∙ sym (ours w (at_site a b w p q z))
        ]
        | inr y ↦ elim (taken_cases a b w k) [
          | inl (p, q, r) ↦ ours v (at_site a b v p q y) ∙ sym r
          | inr z ↦ i.sole a b v w y z
        ]
      ];
      listed = λ a b v h. elim (taken_cases a b v h) [
        | inl (p, q, r) ↦ rw (q, r) (mem-insert_at_self t x table)
        | inr y ↦ mem-insert_at v t x b table (i.listed a b v y)
      ];
      placed = λ a b v h. elim (taken_cases a b v h) [
        | inl (p, q, r) ↦ rw (p, q) (taken-sites_of home (i.numbered sid x taken_there))
        | inr y ↦ i.placed a b v y
      ];
      numbered = λ a b h. i.numbered a b (sym (taken-present a b) ∙ h);
      live =
          λ v h. elim (contains-insert_at v t x table h) [ inl p ↦ rw p here | inr k ↦ i.live v k ];
      known = i.known;
    }
      where
        at_site :
            (a b v : ℤ) → a ≡ sid → b ≡ x → locked v a b sites ≡ true → locked v sid x sites ≡ true
        at_site a b v p q h =
            subst (λ y. locked v sid y sites ≡ true) q (subst (λ y. locked v y b sites ≡ true) p h)

-- One round of either function: nothing, or a lock taken at one site and noted.
abbrev pub Round : ℤ → ℤ → ℤ → (Variable → Variable) → Map Transaction → Locks → Locks → Type 0
Round t x sid f transactions ls ls' =
    (ls' ≡ ls)
    ⊎ ((contains t transactions ≡ true)
        × (on_copy sid x f ls.1 ≡ ok ls'.1)
        × (ls'.0.lock_table ≡ insert_at t x ls.0.lock_table))

pub write_lock_at-Round :
    (transactions : Map Transaction) (t x sid : ℤ) (ls ls' : Locks)
    → write_lock_at transactions t x sid ls ≡ ok ls'
    → Round t x sid (lock_exclusive t) transactions ls ls'
unfolding write_lock_at note_lock on_copy on_site get_site deref_variable
write_lock_at-Round transactions t x sid (l, sites) ls' e = elim (Option-cases (find sid sites)) [
  | inl n ↦ absurd (
      let k : write_lock_at transactions t x sid (l, sites) ≡ err null_pointer = ground arith in cc)
  | inr (s, found) ↦ elim (Bool-cases (is_write_available s)) [
    | inr down ↦ inl (ground arith)
    | inl up ↦ elim (Option-cases (get_variable x s)) [
      | inl n ↦ absurd (
          let k : write_lock_at transactions t x sid (l, sites) ≡ err null_pointer = ground arith in
          cc)
      | inr (v, at) ↦ elim (Option-cases (find t transactions)) [
        | inl n ↦ absurd (
            let k : write_lock_at transactions t x sid (l, sites) ≡ err out_of_range =
              ground arith in
            cc)
        | inr (tran, here) ↦ inr (ground arith, ground arith, ground arith)
      ]
    ]
  ]
]

pub share_lock_at-Round :
    (transactions : Map Transaction) (t x sid : ℤ) (ls ls' : Locks)
    → share_lock_at transactions t x sid ls ≡ ok ls'
    → Round t x sid (λ v. (add_shared_transaction t v).0) transactions ls ls'
unfolding share_lock_at note_lock on_copy on_site get_site deref_variable
share_lock_at-Round transactions t x sid (l, sites) ls' e = elim (Option-cases (find sid sites)) [
  | inl n ↦ absurd (
      let k : share_lock_at transactions t x sid (l, sites) ≡ err null_pointer = ground arith in cc)
  | inr (s, found) ↦ elim (Bool-cases (is_read_available x s)) [
    | inr down ↦ inl (ground arith)
    | inl up ↦ elim (Option-cases (get_variable x s)) [
      | inl n ↦ absurd (
          let k : share_lock_at transactions t x sid (l, sites) ≡ err null_pointer = ground arith in
          cc)
      | inr (v, at) ↦ elim (Option-cases (find t transactions)) [
        | inl n ↦ absurd (
            let k : share_lock_at transactions t x sid (l, sites) ≡ err out_of_range =
              ground arith in
            cc)
        | inr (tran, here) ↦ inr (ground arith, ground arith, ground arith)
      ]
    ]
  ]
]
