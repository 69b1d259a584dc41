-- ===== src/TransactionManager/Roll/Small.antt =====
-- The small operations beside the roll of the transactions.
use rep_crec.Base.{
  true, false, ◌≡◌, refl, sym, subst, ap, ◌∙◌, inl, inr, ◌⊎◌, [], ◌∷◌, ℤ, Map, Set, mem, add,
  mem-add, find_or, contains, range, find-erase_self, find-erase_ne, find-insert_self,
  find-insert_ne, arith, ok, ℤ_discrete, Bool-cases, >>=-eq-ok,
}
use rep_crec.Global.{var_count}
use rep_crec.Variable.{Variable, add_shared_transaction}
use rep_crec.LockManager.{LockManager, is_waiting, add_edges, insert_at}
use rep_crec.LockManager.Assign.{
  Locks, write_lock_at, share_lock_at, assign_write_lock, assign_share_lock, lock_exclusive,
}
use rep_crec.LockManager.Release.{release_locks}
use rep_crec.LockManager.Release.Frees.{release_locks_frees}
use rep_crec.LockManager.Hold.{present}
use rep_crec.LockManager.Hold.Release.{release_locks-eq-ok, SameFor-present}
use rep_crec.LockManager.Hold.Take.{Round, write_lock_at-Round, share_lock_at-Round}
use rep_crec.SiteManager.{SiteManager}
use rep_crec.SiteManager.Copies.{copy, on_copy-eq-ok, on_copy-is_some}
use rep_crec.Transaction.{Transaction}
use rep_crec.TransactionManager.{AgeSet}
use rep_crec.TransactionManager.Deadlocks.Step.{release_waiters_waiting}
use rep_crec.TransactionManager.Roll.{RollInv}

module _ (ts : Map Transaction) (s : AgeSet) where
  pub release_locks-RollInv :
      (t : ℤ) (l : LockManager) (sites : SiteManager) {l' : LockManager} {sites' : SiteManager}
      → release_locks t (l, sites) ≡ ok (l', sites')
      → RollInv ts s l.lock_table l.wait_for_graph sites
      → RollInv ts s l'.lock_table l'.wait_for_graph sites'
        × (is_waiting t l'.wait_for_graph ≡ false)
  release_locks-RollInv t l sites {l'} {sites'} e i =
      let (_, table, graph) = release_locks-eq-ok t l sites e in
      (
        record {
          aged = i.aged;
          descending = i.descending;
          all = i.all;
          tabled = λ u x h. elim (ℤ_discrete u t) [
            | yes p ↦ absurd (ground (arith, table, find-erase_self t l.lock_table))
            | no p ↦ i.tabled u x (ground (arith, table, find-erase_ne u t l.lock_table))
          ];
          copies = λ a x.
              SameFor-present t (copy a x sites) (copy a x sites')
                ((release_locks_frees t l sites e).1 a x)
              ∙ i.copies a x;
          waits = λ u h.
              i.waits u
                (release_waiters_waiting u t l.wait_for_graph
                  (sym (ap (is_waiting u) graph) ∙ h)).1;
        },
        idle,
      )
    where
      idle : is_waiting t l'.wait_for_graph ≡ false
      idle = elim (Bool-cases (is_waiting t l'.wait_for_graph)) [
        | inr p ↦ p
        | inl p ↦
            let (_, _, graph) = release_locks-eq-ok t l sites e in
            absurd (
              (release_waiters_waiting t t l.wait_for_graph (sym (ap (is_waiting t) graph) ∙ p)).0
                refl)
      ]

  -- A transaction that is known may wait.
  is_waiting-add_edges :
      (u t : ℤ) (owners : Set) (g : Map Set)
      → is_waiting u (add_edges t owners g) ≡ true
      → (u ≡ t) ⊎ (is_waiting u g ≡ true)
  unfolding add_edges insert_at is_waiting
  is_waiting-add_edges u t [] g h = inr h
  is_waiting-add_edges u t (o ∷ os) g h = elim (is_waiting-add_edges u t os (insert_at t o g) h) [
    | inl p ↦ inl p
    | inr k ↦ elim (ℤ_discrete u t) [
      | yes p ↦ inl p
      | no p ↦ inr (ground (arith, find-insert_ne u t (add o (find_or [] t g)) g p))
    ]
  ]

  pub add_edges-RollInv :
      (t : ℤ) (owners : Set) (table graph : Map Set) (sites : SiteManager)
      → contains t ts ≡ true
      → RollInv ts s table graph sites
      → RollInv ts s table (add_edges t owners graph) sites
  add_edges-RollInv t owners table graph sites known i = record {
    aged = i.aged;
    descending = i.descending;
    all = i.all;
    tabled = i.tabled;
    copies = i.copies;
    waits = λ u h. elim (is_waiting-add_edges u t owners graph h) [
      | inl p ↦ ap (λ y. contains y ts) p ∙ known
      | inr k ↦ i.waits u k
    ];
  }

  -- What is noted is the variable, or was noted before.
  mem-insert_at :
      (u t x y : ℤ) (table : Map Set)
      → mem y (find_or [] u (insert_at t x table)) ≡ true
      → (y ≡ x) ⊎ (mem y (find_or [] u table) ≡ true)
  unfolding insert_at
  mem-insert_at u t x y table h = elim (ℤ_discrete u t) [
    | no p ↦ inr (ground (arith, find-insert_ne u t (add x (find_or [] t table)) table p))
    | yes p ↦ elim (ℤ_discrete y x) [
      | yes q ↦ inl q
      | no q ↦ inr (
          ground (
            arith,
            find-insert_self t (add x (find_or [] t table)) table,
            mem-add y x (find_or [] t table),
          ))
    ]
  ]

  Round-RollInv :
      (t x sid : ℤ) (f : Variable → Variable) (graph : Map Set) (ls ls' : Locks)
      → Round t x sid f ts ls ls'
      → RollInv ts s ls.0.lock_table graph ls.1
      → RollInv ts s ls'.0.lock_table graph ls'.1
  Round-RollInv t x sid f graph ls ls' (inl p) i =
      subst (λ y. RollInv ts s y.0.lock_table graph y.1) (sym p) i
  Round-RollInv t x sid f graph ls ls' (inr (_, e, p)) i =
      let (site, v, found, at, _) = on_copy-eq-ok sid x f ls.1 e in
      let there : present sid x ls.1 ≡ true = ground arith in
      let numbered : mem x (range 1 var_count) ≡ true = ground (arith, i.copies sid x) in
      record {
        aged = i.aged;
        descending = i.descending;
        all = i.all;
        tabled = λ u y h.
            elim (mem-insert_at u t x y ls.0.lock_table
              (sym (ap (λ m. mem y (find_or [] u m)) p) ∙ h)) [
                | inl q ↦ ap (λ z. mem z (range 1 var_count)) q ∙ numbered
                | inr k ↦ i.tabled u y k
              ];
        copies = λ a y. on_copy-is_some a y sid x f ls.1 e ∙ i.copies a y;
        waits = i.waits;
      }

  pub assign_write_lock-RollInv :
      (t x : ℤ) (graph : Map Set) (sids : Set) (ls ls' : Locks)
      → assign_write_lock ts t sids x ls ≡ ok ls'
      → RollInv ts s ls.0.lock_table graph ls.1
      → RollInv ts s ls'.0.lock_table graph ls'.1
  unfolding assign_write_lock
  assign_write_lock-RollInv t x graph [] ls ls' e i =
      let p : ls ≡ ls' = cc in subst (λ y. RollInv ts s y.0.lock_table graph y.1) p i
  assign_write_lock-RollInv t x graph (sid ∷ sids) ls ls' e i =
      let (n, first, rest) =
        >>=-eq-ok (write_lock_at ts t x sid ls) (assign_write_lock ts t sids x) e in
      assign_write_lock-RollInv t x graph sids n ls' rest (
        Round-RollInv t x sid (lock_exclusive t) graph ls n
          (write_lock_at-Round ts t x sid ls n first) i)

  pub assign_share_lock-RollInv :
      (t x : ℤ) (graph : Map Set) (sids : Set) (ls ls' : Locks)
      → assign_share_lock ts t sids x ls ≡ ok ls'
      → RollInv ts s ls.0.lock_table graph ls.1
      → RollInv ts s ls'.0.lock_table graph ls'.1
  unfolding assign_share_lock
  assign_share_lock-RollInv t x graph [] ls ls' e i =
      let p : ls ≡ ls' = cc in subst (λ y. RollInv ts s y.0.lock_table graph y.1) p i
  assign_share_lock-RollInv t x graph (sid ∷ sids) ls ls' e i =
      let (n, first, rest) =
        >>=-eq-ok (share_lock_at ts t x sid ls) (assign_share_lock ts t sids x) e in
      assign_share_lock-RollInv t x graph sids n ls' rest (
        Round-RollInv t x sid (λ v. (add_shared_transaction t v).0) graph ls n
          (share_lock_at-Round ts t x sid ls n first) i)
