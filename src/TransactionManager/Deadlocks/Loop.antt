-- ===== src/TransactionManager/Deadlocks/Loop.antt =====
-- The loop that breaks deadlocks.
use rep_crec.Base.{
  ◌↔◌, ◌≢◌, Bool-cases, ◌⊎◌, ℕ, zero, suc, ◌<◌, Bool, true, ◌≡◌, refl, sym, subst, ap, ◌∙◌, inl,
  inr, [], ◌∷◌, ℤ, Map, Set, find_or, mem, arith, ok, Result-cases, length,
}
use rep_crec.LockManager.{is_waiting}
use rep_crec.LockManager.Deadlock.{detect_deadlock}
use rep_crec.LockManager.Deadlock.Graph.{IsCyclic, Edge, Walk, one, more}
use rep_crec.LockManager.Deadlock.Correct.{Answers, detect_deadlock-Answers}
use rep_crec.TransactionManager.{TransactionManager, AgeSet}
use rep_crec.TransactionManager.Execute.{find_deadlock, youngest, break_deadlocks}
use rep_crec.TransactionManager.Deadlocks.{Breakable, ids}
use rep_crec.TransactionManager.Deadlocks.Step.{abort_youngest}

abbrev pub with_graph : Map Set → TransactionManager → TransactionManager
with_graph g tm = record tm { lock_manager = record (tm.lock_manager) { wait_for_graph = g } }

-- A search says whether there is a cycle, and leaves the same edges.
pub find_deadlock_total :
    (tm : TransactionManager)
    → (b : Bool) × (g : Map Set) × (find_deadlock tm ≡ ok (b, with_graph g tm))
      × ((b ≡ true) ↔ IsCyclic tm.lock_manager.wait_for_graph)
      × ((a : ℤ) → find_or [] a g ≡ find_or [] a tm.lock_manager.wait_for_graph)
unfolding find_deadlock
find_deadlock_total tm = elim (Result-cases (detect_deadlock tm.lock_manager.wait_for_graph)) [
  | inl ((b, g), e) ↦
      let (c, same) =
        subst (Answers tm.lock_manager.wait_for_graph) e
          (detect_deadlock-Answers tm.lock_manager.wait_for_graph) in
      (b, g, ground arith, c, same)
  | inr (x, e) ↦ absurd (
      subst (Answers tm.lock_manager.wait_for_graph) e
        (detect_deadlock-Answers tm.lock_manager.wait_for_graph))
]

pub waiting-same :
    (u : ℤ) (g h : Map Set) → find_or [] u g ≡ find_or [] u h → is_waiting u g ≡ is_waiting u h
unfolding is_waiting
waiting-same u g h e = ground arith

with_graph-Breakable :
    (g : Map Set) (tm : TransactionManager)
    → ((a : ℤ) → find_or [] a g ≡ find_or [] a tm.lock_manager.wait_for_graph)
    → Breakable tm
    → Breakable (with_graph g tm)
with_graph-Breakable g tm same b = record {
  aged = b.aged;
  descending = b.descending;
  waiters = λ u h. b.waiters u (sym (waiting-same u g tm.lock_manager.wait_for_graph (same u)) ∙ h);
  there = b.there;
}

Walk-same :
    (g h : Map Set)
    → ((a : ℤ) → find_or [] a h ≡ find_or [] a g)
    → {a b : ℤ} → Walk g a b
    → Walk h a b
Walk-same g h same (one e) = one (ap (mem _) (same _) ∙ e)
Walk-same g h same (more e w) = more (ap (mem _) (same _) ∙ e) (Walk-same g h same w)

Edge-waiting : (g : Map Set) (a b : ℤ) → Edge g a b → is_waiting a g ≡ true
unfolding is_waiting
Edge-waiting g a b e = ground arith

-- Where there is a cycle there is a transaction to abort.
Cyclic-nonempty :
    (tm : TransactionManager)
    → Breakable tm
    → IsCyclic tm.lock_manager.wait_for_graph
    → tm.transactions_set ≢ []
Cyclic-nonempty tm b (a, w) e =
    let h : is_waiting a tm.lock_manager.wait_for_graph ≡ true = Walk-waiting w in
    let m : mem a (ids []) ≡ true = subst (λ s. mem a (ids s) ≡ true) e (b.waiters a h) in cc
  where
    Walk-waiting : {g : Map Set} {x y : ℤ} → Walk g x y → is_waiting x g ≡ true
    Walk-waiting {g} {x} (one {b = y} f) = Edge-waiting g x y f
    Walk-waiting {g} {x} (more {b = y} f v) = Edge-waiting g x y f

set_cases :
    (s : AgeSet) → (s ≡ []) ⊎ ((time : ℤ) × (id : ℤ) × (s' : AgeSet) × (s ≡ (time, id) ∷ s'))
set_cases [] = inl refl
set_cases ((time, id) ∷ s) = inr (time, id, s, refl)

-- The loop as a whole, by the number of transactions.
break_total :
    (n : ℕ) (s : AgeSet) (tm : TransactionManager)
    → tm.transactions_set ≡ s
    → length s < n
    → Breakable tm
    → (tm' : TransactionManager) × (break_deadlocks n tm ≡ ok (tt, tm'))
      × Breakable tm'
      × ¬ IsCyclic tm'.lock_manager.wait_for_graph
unfolding break_deadlocks youngest
break_total zero s tm e lt b = absurd (omega arith)
break_total (suc n) s tm e lt b =
    let (found, g, f, c, same) = find_deadlock_total tm in
    let b' = with_graph-Breakable g tm same b in
    elim (Bool-cases found) [
      | inr no_cycle ↦ (
        with_graph g tm,
        ground arith,
        b',
        λ (a, w).
            let h = c.1 (a, Walk-same g tm.lock_manager.wait_for_graph (λ x. sym (same x)) w) in cc,
      )
      | inl cycle ↦ elim (set_cases s) [
        | inl p ↦ absurd (Cyclic-nonempty tm b (c.0 cycle) (e ∙ p))
        | inr (time, id, s', p) ↦
            let (m, ab, q, d) = abort_youngest time id s' (with_graph g tm) (e ∙ p) b' in
            let (tm', r, z, acyclic) = break_total n s' m q (ground arith) d in
            (tm', ground arith, z, acyclic)
      ]
    ]

-- The loop that breaks deadlocks ends within as many rounds as there are transactions, with no fault,
-- and leaves a wait-for graph without a cycle: given that the set of the transactions by age agrees
-- with the map of the transactions and is in order, that everybody who waits is in it, and that the
-- copies of the variables that the lock table lists are there. All this holds afterwards, too.
pub break_deadlocks_total :
    (tm : TransactionManager)
    → Breakable tm
    → (tm' : TransactionManager) × (break_deadlocks (suc (length tm.transactions_set)) tm
        ≡ ok (tt, tm'))
      × Breakable tm'
      × ¬ IsCyclic tm'.lock_manager.wait_for_graph
break_deadlocks_total tm b =
    break_total (suc (length tm.transactions_set)) tm.transactions_set tm refl (omega arith) b
