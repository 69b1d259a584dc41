-- ===== src/LockManager/Deadlock/Graph.antt =====
-- The wait-for graph as a relation: its edges, its paths and its cycles.
use rep_crec.Base.{true, ◌≡◌, refl, List, [], ◌∷◌, ◌++◌, ℤ, Map, Set, find_or, mem, arith, ◌||◌}
use rep_crec.LockManager.Deadlock.{touch, nodes}

-- `a` waits for `b`.
abbrev pub Edge : Map Set → ℤ → ℤ → Type 0
Edge g a b = mem b (find_or [] a g) ≡ true

-- A way of one edge or more.
pub data Walk (g : Map Set) : ℤ → ℤ → Type 0 where
  one : {a b : ℤ} → Edge g a b → Walk g a b
  more : {a b c : ℤ} → Edge g a b → Walk g b c → Walk g a c

abbrev pub IsCyclic : Map Set → Type 0
IsCyclic g = (a : ℤ) × Walk g a a

pub Walk-snoc : {g : Map Set} {a b c : ℤ} → Walk g a b → Edge g b c → Walk g a c
Walk-snoc (one e) f = more e (one f)
Walk-snoc (more e w) f = more e (Walk-snoc w f)

pub find_or-touch : (t a : ℤ) (g : Map Set) → find_or [] a (touch t g) ≡ find_or [] a g
find_or-touch t a g = ground arith

pub mem-append : (b : ℤ) (xs ys : List ℤ) → mem b (xs ++ ys) ≡ (mem b xs || mem b ys)
mem-append b [] ys = refl
mem-append b (x ∷ xs) ys = ground (arith, mem-append b xs ys)

-- Whoever is waited for stands in the list of the nodes.
pub Edge-mem-nodes : (g : Map Set) (a b : ℤ) → Edge g a b → mem b (nodes g) ≡ true
unfolding nodes
Edge-mem-nodes [] a b e = cc
Edge-mem-nodes ((t, ts) ∷ g) a b e = ground (arith, Edge-mem-nodes g a b, mem-append b ts (nodes g))

-- A set that is closed under the edges is left by no walk.
pub Walk-closed {ℓ} :
    {g : Map Set} (P : ℤ → Type ℓ)
    → ((a b : ℤ) → P a → Edge g a b → P b)
    → {a b : ℤ} → Walk g a b
    → P a
    → P b
Walk-closed P closed {a} {b} (one e) p = closed a b p e
Walk-closed P closed {a} (more {b = m} e w) p = Walk-closed P closed w (closed a m p e)
