-- ===== src/LockManager/Deadlock/Correct.antt =====
-- `detect_deadlock` as a whole.
use rep_crec.Base.{
  ℕ, ◌<◌, Bool, true, false, ◌≡◌, refl, inl, inr, ◌≢◌, List, [], ◌∷◌, ℤ, ◌↔◌, Map, Set, find_or,
  keys, mem, arith, Result, ok, err, ◌>>=◌,
}
use rep_crec.LockManager.Deadlock.{
  Dfs, not_visit, on_path, visited, status_of, dfs_all, dfs_fuel, unvisited, wait_for_graph_dfs,
  nodes, detect_deadlock,
}
use rep_crec.LockManager.Deadlock.Graph.{Edge, one, more, IsCyclic, mem-append}
use rep_crec.LockManager.Deadlock.Measure.{pending, pending_mono, pending-le-length, Status-cases}
use rep_crec.LockManager.Deadlock.Search.{
  Inv, Finds, Loops, Loops-nil, Finds-Loops, Visits, Kept-refl, Kept-Ages, Finds-then,
}
use rep_crec.LockManager.Deadlock.Visit.{one_node_ends}

mem-keys-nodes : (t : ℤ) (g : Map Set) → mem t (keys g) ≡ true → mem t (nodes g) ≡ true
unfolding nodes
mem-keys-nodes t [] h = cc
mem-keys-nodes t ((s, ts) ∷ g) h = ground (arith, mem-keys-nodes t g, mem-append t ts (nodes g))

Edge-mem-keys : (g : Map Set) (a b : ℤ) → Edge g a b → mem a (keys g) ≡ true
Edge-mem-keys [] a b e = cc
Edge-mem-keys ((t, ts) ∷ g) a b e = ground (arith, Edge-mem-keys g a b)

status-unvisited : (a : ℤ) (ts : List ℤ) → find_or not_visit a (unvisited ts) ≡ not_visit
unfolding unvisited
status-unvisited a [] = refl
status-unvisited a (t ∷ ts) = ground (arith, status-unvisited a ts)

module _ (g : Map Set) where
  -- Nothing is on the path between two visits of the outer loop.
  abbrev Idle : Dfs → Type 0
  Idle d = (a : ℤ) → status_of a d ≢ on_path

  all-Finds :
      (n : ℕ) (ts : List ℤ)
      → ((s : ℤ) → mem s ts ≡ true → mem s (keys g) ≡ true)
      → (d : Dfs) → Inv g d
      → d.has_cycle ≡ false
      → Idle d
      → pending (nodes g) d < n
      → Finds g (Loops g ts d) (dfs_all n ts d)
  unfolding dfs_all
  all-Finds n [] inside d i nc idle fuel = inr (nc, Loops-nil g d i)
  all-Finds n (s ∷ ts) inside d i nc idle fuel =
      let rest = all-Finds n ts (λ x m. inside x (ground arith)) in
      elim (Status-cases (status_of s d)) [
        | inl new ↦
            rw (new, dfs_all)
              (Finds-then g (Visits g s d) (Loops g (s ∷ ts) d) (wait_for_graph_dfs n s d)
                (dfs_all n ts)
                (one_node_ends g n s d (record {
                  inv = i;
                  no_cycle = nc;
                  new = new;
                  trail = λ a on. absurd (idle a on);
                  node = mem-keys-nodes s g (inside s (ground arith));
                  fuel = fuel;
                }))
                λ d' nc' v. Finds-Loops g s ts d d' (dfs_all n ts d') v.1 v.2 (
                  rest d' v.0 nc' (λ a on. idle a (v.1.same_path a on))
                    (let le = pending_mono (nodes g) d d' (Kept-Ages g d d' v.1) in omega arith)))
        | inr (inl on) ↦ absurd (idle s on)
        | inr (inr old) ↦
            rw (old, dfs_all)
              (Finds-Loops g s ts d d (dfs_all n ts d) (Kept-refl g d) old (rest d i nc idle fuel))
      ]

  -- What `detect_deadlock` answers of a search that went well.
  abbrev pub Answers : Result (Bool × Map Set) → Type 0
  Answers (err e) = ⊥
  Answers (ok (b, g')) = ((b ≡ true) ↔ IsCyclic g) × ((a : ℤ) → find_or [] a g' ≡ find_or [] a g)

  covered-acyclic : (d d' : Dfs) → Loops g (keys g) d d' → ¬ IsCyclic g
  covered-acyclic d d' (i, k, all) (a, one e) = i.acyclic a (all a (Edge-mem-keys g a a e)) (one e)
  covered-acyclic d d' (i, k, all) (a, more {b = b} e w) =
      i.acyclic a (all a (Edge-mem-keys g a b e)) (more e w)

  Finds-Answers :
      (d : Dfs) (r : Result Dfs)
      → Finds g (Loops g (keys g) d) r
      → Answers (r >>= λ d'. ok (d'.has_cycle, d'.graph))
  Finds-Answers d (err e) f = f
  Finds-Answers d (ok d') (inl (h, c, e)) = ((λ _. c, λ _. h), e)
  Finds-Answers d (ok d') (inr (nc, v)) =
      ((λ h. absurd cc, λ c. absurd (covered-acyclic d d' v c)), v.0.same)

  -- The search for a deadlock always ends, with no fault and within its fuel. It answers `true`
  -- exactly if the wait-for graph has a cycle, and the graph that it leaves has the same edges.
  pub detect_deadlock-Answers : Answers (detect_deadlock g)
  unfolding detect_deadlock
  detect_deadlock-Answers = Finds-Answers start (dfs_all (dfs_fuel g) (keys g) start) (
      all-Finds (dfs_fuel g) (keys g) (λ s m. m) start
        (record {
          same = λ a. refl;
          closed = λ a b v e. absurd (new a v);
          acyclic = λ a v. absurd (new a v);
        })
        refl (λ a on. let u = status-unvisited a (keys g) in absurd cc)
        (let le = pending-le-length (nodes g) start in omega arith))
    where
      start : Dfs
      start = record { graph = g; has_cycle = false; status = unvisited (keys g) }

      new : (a : ℤ) → status_of a start ≢ visited
      new a v = let u = status-unvisited a (keys g) in cc
