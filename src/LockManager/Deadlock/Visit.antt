-- ===== src/LockManager/Deadlock/Visit.antt =====
-- A whole visit of the depth-first search, by induction on the fuel.
use rep_crec.Base.{
  ℕ, zero, suc, true, false, ◌≡◌, sym, subst, ◌∙◌, inl, inr, [], ℤ, ℤ_discrete, Map, Set, find_or,
  arith, Result, ok, err, ◌>>=◌,
}
use rep_crec.LockManager.Deadlock.{
  Dfs, not_visit, on_path, visited, status_of, set_status, touch, dfs_loop, wait_for_graph_dfs,
  finish, nodes,
}
use rep_crec.LockManager.Deadlock.Graph.{Edge, Walk, one, more, find_or-touch, Walk-closed}
use rep_crec.LockManager.Deadlock.Measure.{Ages, pending-lt, status_of-set_status}
use rep_crec.LockManager.Deadlock.Search.{Visit, Inv, Kept, Finds, Visits, Loops, loop-Finds}

-- The state in which the loop over the successors of `t` begins.
abbrev entered : ℤ → Dfs → Dfs
entered t d = set_status t on_path (record d { graph = touch t d.graph })

visit_step :
    (n : ℕ) (t : ℤ) (d : Dfs)
    → status_of t d ≡ not_visit
    → d.has_cycle ≡ false
    → wait_for_graph_dfs (suc n) t d ≡ (
        dfs_loop (wait_for_graph_dfs n) (find_or [] t d.graph) (entered t d) >>= λ d'.
        ok (finish t d'))
unfolding wait_for_graph_dfs
visit_step n t d new nc = ground arith

module _ (g : Map Set) (t : ℤ) (d : Dfs) where
  entered-Inv : Inv g d → status_of t d ≡ not_visit → Inv g (entered t d)
  entered-Inv i new = record {
    same = λ a. find_or-touch t a d.graph ∙ i.same a;
    closed = λ a b v e. ground (
      arith,
      status_of-set_status a t on_path d,
      status_of-set_status b t on_path d,
      i.closed a b,
    );
    acyclic = λ a v. i.acyclic a (ground (arith, status_of-set_status a t on_path d));
  }

  entered-Ages : Ages d (entered t d)
  entered-Ages a h = ground (arith, status_of-set_status a t on_path d)

  module _ (d' : Dfs) (new : status_of t d ≡ not_visit)
      (all : (s : ℤ) → Edge g t s → status_of s d' ≡ visited) (i : Inv g d')
      (k : Kept g (entered t d) d') where
    on_path_still : status_of t d' ≡ on_path
    on_path_still = k.still_on t (ground (arith, status_of-set_status t t on_path d))

    no_way_back : ¬ Walk g t t
    no_way_back (one e) = let v = all t e in let o = on_path_still in cc
    no_way_back (more {b = b} e w) =
        let v = Walk-closed (λ a. status_of a d' ≡ visited) i.closed w (all b e) in
        let o = on_path_still in cc

    finished-Inv : Inv g (set_status t visited d')
    finished-Inv = record {
      same = i.same;
      closed = λ a b v e. ground (
        arith,
        status_of-set_status a t visited d',
        status_of-set_status b t visited d',
        i.closed a b,
        λ (p : a ≡ t). all b (subst (λ x. Edge g x b) p e),
      );
      acyclic = λ a v. elim (ℤ_discrete a t) [
        | yes p ↦ subst (λ x. ¬ Walk g x x) (sym p) no_way_back
        | no p ↦ i.acyclic a (ground (arith, status_of-set_status a t visited d'))
      ];
    }

    finished-Kept : Kept g d (set_status t visited d')
    finished-Kept = record {
      done = λ a h. ground (
        arith,
        status_of-set_status a t visited d',
        status_of-set_status a t on_path d,
        k.done a,
      );
      same_path = λ a h. ground (
        arith,
        status_of-set_status a t visited d',
        status_of-set_status a t on_path d,
        k.same_path a,
      );
      still_on = λ a h. ground (
        arith,
        status_of-set_status a t visited d',
        status_of-set_status a t on_path d,
        k.still_on a,
      );
    }

    finished-Visits : Visits g t d (set_status t visited d')
    finished-Visits =
        (finished-Inv, finished-Kept, ground (arith, status_of-set_status t t visited d'))

  finish_cycle : (d' : Dfs) → d'.has_cycle ≡ true → finish t d' ≡ d'
  finish_cycle d' h = ground arith

  finish_free : (d' : Dfs) → d'.has_cycle ≡ false → finish t d' ≡ set_status t visited d'
  finish_free d' h = ground arith

  finish-Finds :
      status_of t d ≡ not_visit
      → (r : Result Dfs) → Finds g (Loops g (find_or [] t g) (entered t d)) r
      → Finds g (Visits g t d) (r >>= λ d'. ok (finish t d'))
  finish-Finds new (err e) f = f
  finish-Finds new (ok d') (inl (h, c, e)) =
      subst (λ x. Finds g (Visits g t d) (ok x)) (sym (finish_cycle d' h)) (inl (h, c, e))
  finish-Finds new (ok d') (inr (nc, (i, k, all))) =
      subst (λ x. Finds g (Visits g t d) (ok x)) (sym (finish_free d' nc))
        (inr (nc, finished-Visits d' new all i k))

module _ (g : Map Set) where
  pub one_node_ends : (n : ℕ) → Visit g n (wait_for_graph_dfs n)
  one_node_ends zero t d r = absurd (let h = r.fuel in omega arith)
  one_node_ends (suc n) t d r =
      let looped =
        loop-Finds g n (wait_for_graph_dfs n) (one_node_ends n) t (find_or [] t g) (λ s m. m)
          (entered t d) (entered-Inv g t d r.inv r.new) r.no_cycle
          (λ a on. elim (ℤ_discrete a t) [
            | yes p ↦ inl p
            | no p ↦ inr (r.trail a (ground (arith, status_of-set_status a t on_path d)))
          ])
          (let less =
              pending-lt (nodes g) t d (entered t d) (entered-Ages g t d) r.node r.new
                (ground (arith, status_of-set_status t t on_path d)) in
            let h = r.fuel in omega arith) in
      subst (Finds g (Visits g t d)) (sym (visit_step n t d r.new r.no_cycle)) (
        finish-Finds g t d r.new _ (
          subst
            (λ ts.
              Finds g (Loops g (find_or [] t g) (entered t d))
                (dfs_loop (wait_for_graph_dfs n) ts (entered t d)))
            (sym (r.inv.same t)) looped))
