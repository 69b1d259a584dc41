-- ===== src/LockManager/Deadlock/Search.antt =====
-- One visit and one loop of the depth-first search: they end, they report a cycle only if there is
-- one, and what they leave visited lies on none.
use rep_crec.Base.{
  ℕ, ◌<◌, true, false, ◌≡◌, refl, sym, subst, ◌⊎◌, inl, inr, List, [], ◌∷◌, ℤ, ℤ_discrete, Map, Set,
  find_or, mem, arith, Result, ok, err, ◌>>=◌,
}
use rep_crec.LockManager.Deadlock.{Dfs, not_visit, on_path, visited, status_of, dfs_loop, nodes}
use rep_crec.LockManager.Deadlock.Graph.{Edge, Walk, one, IsCyclic, Walk-snoc, Edge-mem-nodes}
use rep_crec.LockManager.Deadlock.Measure.{Ages, pending, pending_mono, Status-cases}

module _ (g : Map Set) where
  -- The graph keeps its edges, and visited nodes lead to visited nodes and lie on no cycle.
  pub record Inv (d : Dfs) : Type 0 where
    pub same : (a : ℤ) → find_or [] a d.graph ≡ find_or [] a g
    pub closed : (a b : ℤ) → status_of a d ≡ visited → Edge g a b → status_of b d ≡ visited
    pub acyclic : (a : ℤ) → status_of a d ≡ visited → ¬ Walk g a a

  -- A search without a cycle leaves the path as it was.
  pub record Kept (d d' : Dfs) : Type 0 where
    pub done : (a : ℤ) → status_of a d ≡ visited → status_of a d' ≡ visited
    pub same_path : (a : ℤ) → (status_of a d' ≡ on_path) → status_of a d ≡ on_path
    pub still_on : (a : ℤ) → (status_of a d ≡ on_path) → status_of a d' ≡ on_path

  -- A result with a cycle and the same edges, or one without that satisfies `P`; never a failure.
  abbrev pub Finds : (Dfs → Type 0) → Result Dfs → Type 0
  Finds P (err e) = ⊥
  Finds P (ok d) =
      ((d.has_cycle ≡ true) × IsCyclic g × ((a : ℤ) → find_or [] a d.graph ≡ find_or [] a g))
      ⊎ ((d.has_cycle ≡ false) × P d)

  abbrev pub Visits : ℤ → Dfs → Dfs → Type 0
  Visits t d d' = Inv d' × Kept d d' × (status_of t d' ≡ visited)

  abbrev pub Loops : List ℤ → Dfs → Dfs → Type 0
  Loops ts d d' = Inv d' × Kept d d' × ((s : ℤ) → mem s ts ≡ true → status_of s d' ≡ visited)

  -- Where a search may begin a visit of `t` with the fuel `n`.
  pub record Ready (n : ℕ) (t : ℤ) (d : Dfs) : Type 0 where
    pub inv : Inv d
    pub no_cycle : d.has_cycle ≡ false
    pub new : status_of t d ≡ not_visit
    pub trail : (a : ℤ) → status_of a d ≡ on_path → Walk g a t
    pub node : mem t (nodes g) ≡ true
    pub fuel : pending (nodes g) d < n

  pub Kept-refl : (d : Dfs) → Kept d d
  Kept-refl d = record { done = λ a h. h; same_path = λ a h. h; still_on = λ a h. h }

  pub Kept-trans : (d e f : Dfs) → Kept d e → Kept e f → Kept d f
  Kept-trans d e f p q = record {
    done = λ a h. q.done a (p.done a h);
    same_path = λ a h. p.same_path a (q.same_path a h);
    still_on = λ a h. q.still_on a (p.still_on a h);
  }

  pub Kept-Ages : (d e : Dfs) → Kept d e → Ages d e
  Kept-Ages d e k a h = elim (Status-cases (status_of a d)) [
    | inl new ↦ new
    | inr (inl on) ↦ absurd (let on' = k.still_on a on in cc)
    | inr (inr old) ↦ absurd (let old' = k.done a old in cc)
  ]

  abbrev pub Visit : ℕ → (ℤ → Dfs → Result Dfs) → Type 0
  Visit n visit = (t : ℤ) (d : Dfs) → Ready n t d → Finds (Visits t d) (visit t d)

  pub Loops-nil : (d : Dfs) → Inv d → Loops [] d d
  Loops-nil d i = (i, Kept-refl d, λ s m. absurd cc)

  Loops-cons :
      (t : ℤ) (ts : List ℤ) (d e f : Dfs)
      → Kept d e
      → status_of t e ≡ visited
      → Loops ts e f
      → Loops (t ∷ ts) d f
  Loops-cons t ts d e f k v (i, k', all) = (
    i,
    Kept-trans d e f k k',
    λ s m. elim (ℤ_discrete s t) [ yes p ↦ rw p (k'.done t v) | no p ↦ all s (ground arith) ],
  )

  edge_to : (s : ℤ) (ts : List ℤ) → mem s (s ∷ ts) ≡ true
  edge_to s ts = ground arith

  mem_tail : (s x : ℤ) (ts : List ℤ) → mem s ts ≡ true → mem s (x ∷ ts) ≡ true
  mem_tail s x ts h = ground arith

  pub Finds-then :
      (P Q : Dfs → Type 0) (r : Result Dfs) (k : Dfs → Result Dfs)
      → Finds P r
      → ((d : Dfs) → d.has_cycle ≡ false → P d → Finds Q (k d))
      → Finds Q (r >>= λ d. elim d.has_cycle [ true ↦ ok d | false ↦ k d ])
  Finds-then P Q (err e) k f go = f
  Finds-then P Q (ok d) k (inl (h, c, e)) go = rw h (inl (h, c, e))
  Finds-then P Q (ok d) k (inr (h, p)) go = rw h (go d h p)

  dfs_loop_visited :
      (visit : ℤ → Dfs → Result Dfs) (s : ℤ) (ts : List ℤ) (d : Dfs)
      → status_of s d ≡ visited
      → d.has_cycle ≡ false
      → dfs_loop visit (s ∷ ts) d ≡ dfs_loop visit ts d
  unfolding dfs_loop
  dfs_loop_visited visit s ts d old nc = ground arith

  -- The trail to a node goes on along an edge.
  trail_on :
      (t s : ℤ) (d : Dfs)
      → ((a : ℤ) → status_of a d ≡ on_path → (a ≡ t) ⊎ Walk g a t)
      → Edge g t s
      → (a : ℤ) → status_of a d ≡ on_path
      → Walk g a s
  trail_on t s d trail e a on = elim (trail a on) [ inl p ↦ one (rw p e) | inr w ↦ Walk-snoc w e ]

  pub Finds-Loops :
      (s : ℤ) (ts : List ℤ) (d e : Dfs) (r : Result Dfs)
      → Kept d e
      → status_of s e ≡ visited
      → Finds (Loops ts e) r
      → Finds (Loops (s ∷ ts) d) r
  Finds-Loops s ts d e (err _) k v f = f
  Finds-Loops s ts d e (ok f) k v (inl c) = inl c
  Finds-Loops s ts d e (ok f) k v (inr (nc, l)) = inr (nc, Loops-cons s ts d e f k v l)

  -- The loop over what the current node waits for, given that each visit does its work.
  pub loop-Finds :
      (n : ℕ) (visit : ℤ → Dfs → Result Dfs)
      → Visit n visit
      → (t : ℤ) (ts : List ℤ) → ((s : ℤ) → mem s ts ≡ true → Edge g t s)
      → (d : Dfs) → Inv d
      → d.has_cycle ≡ false
      → ((a : ℤ) → status_of a d ≡ on_path → (a ≡ t) ⊎ Walk g a t)
      → pending (nodes g) d < n
      → Finds (Loops ts d) (dfs_loop visit ts d)
  unfolding dfs_loop
  loop-Finds n visit go t [] edges d i nc trail fuel = inr (nc, Loops-nil d i)
  loop-Finds n visit go t (s ∷ ts) edges d i nc trail fuel =
      let e = edges s (edge_to s ts) in
      let on_trail = trail_on t s d trail e in
      let rest = loop-Finds n visit go t ts (λ x m. edges x (mem_tail x s ts m)) in
      elim (Status-cases (status_of s d)) [
        | inl new ↦
            rw (new, dfs_loop)
              (Finds-then (Visits s d) (Loops (s ∷ ts) d) (visit s d) (dfs_loop visit ts)
                (go s d (record {
                  inv = i;
                  no_cycle = nc;
                  new = new;
                  trail = on_trail;
                  node = Edge-mem-nodes g t s e;
                  fuel = fuel;
                }))
                λ d' nc' v. Finds-Loops s ts d d' (dfs_loop visit ts d') v.1 v.2 (
                  rest d' v.0 nc' (λ a on. trail a (v.1.same_path a on))
                    (let le = pending_mono (nodes g) d d' (Kept-Ages d d' v.1) in omega arith)))
        | inr (inl on) ↦ rw (on, dfs_loop) (inl (refl, (s, on_trail s on), i.same))
        | inr (inr old) ↦
            subst (Finds (Loops (s ∷ ts) d)) (sym (dfs_loop_visited visit s ts d old nc)) (
              Finds-Loops s ts d d (dfs_loop visit ts d) (Kept-refl d) old (rest d i nc trail fuel))
      ]
