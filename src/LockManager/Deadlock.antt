-- ===== src/LockManager/Deadlock.antt =====
-- `detect_deadlock`: a depth-first search for a cycle of the wait-for graph. Following a node that
-- waits for nobody leaves an empty set in the graph.
pub mod Graph
pub mod Measure
pub mod Search
pub mod Visit
pub mod Correct
use rep_crec.Base.{
  ℕ, zero, suc, Bool, true, false, List, [], ◌∷◌, ◌++◌, ℤ, Map, Set, find_or, insert, contains,
  keys, if◌then◌else◌, Result, ok, err, out_of_fuel, ◌>>=◌, length,
}

pub data DfsStatus : Type 0 where
  not_visit on_path visited : DfsStatus

pub record Dfs : Type 0 where
  pub graph : Map Set
  pub has_cycle : Bool
  pub status : Map DfsStatus

-- `visited[tran_id]`
abbrev pub status_of : ℤ → Dfs → DfsStatus
status_of tran_id d = find_or not_visit tran_id d.status

abbrev pub set_status : ℤ → DfsStatus → Dfs → Dfs
set_status tran_id st d = record d { status = insert tran_id st d.status }

-- `wait_for_graph_[tran_id]`, which puts an empty set where there is none
abbrev pub touch : ℤ → Map Set → Map Set
touch tran_id g = if contains tran_id g then g else (tran_id, []) ∷ g

-- The loop over the transactions that the current one waits for; `visit` is the recursive call.
unfoldable pub dfs_loop : (ℤ → Dfs → Result Dfs) → List ℤ → Dfs → Result Dfs
dfs_loop visit [] d = ok d
dfs_loop visit (t ∷ ts) d = elim (status_of t d) [
  | on_path ↦ ok (record d { has_cycle = true })
  | not_visit ↦
      visit t d >>= λ d'. elim d'.has_cycle [ true ↦ ok d' | false ↦ dfs_loop visit ts d' ]
  | visited ↦ elim d.has_cycle [ true ↦ ok d | false ↦ dfs_loop visit ts d ]
]

abbrev pub finish : ℤ → Dfs → Dfs
finish tran_id d = if d.has_cycle then d else set_status tran_id visited d

unfoldable pub wait_for_graph_dfs : ℕ → ℤ → Dfs → Result Dfs
unfolding dfs_loop
wait_for_graph_dfs zero t d = err out_of_fuel
wait_for_graph_dfs (suc fuel) t d = elim (status_of t d) [
  | visited ↦ ok d
  | _ ↦ elim d.has_cycle [
    | true ↦ ok d
    | false ↦
        dfs_loop (wait_for_graph_dfs fuel) (find_or [] t d.graph)
          (set_status t on_path (record d { graph = touch t d.graph }))
        >>= λ d'. ok (finish t d')
  ]
]

-- Every transaction that stands in the graph, on either side.
unfoldable pub nodes : Map Set → List ℤ
nodes [] = []
nodes ((t, ts) ∷ g) = t ∷ (ts ++ nodes g)

unfoldable pub dfs_fuel : Map Set → ℕ
unfolding nodes
dfs_fuel g = suc (length (nodes g))

-- The loop over all transactions that wait.
unfoldable pub dfs_all : ℕ → List ℤ → Dfs → Result Dfs
unfolding wait_for_graph_dfs
dfs_all fuel [] d = ok d
dfs_all fuel (t ∷ ts) d = elim (status_of t d) [
  | not_visit ↦ wait_for_graph_dfs fuel t d >>= λ d'. elim d'.has_cycle [
    | true ↦ ok d'
    | false ↦ dfs_all fuel ts d'
  ]
  | _ ↦ dfs_all fuel ts d
]

unfoldable pub unvisited : List ℤ → Map DfsStatus
unvisited [] = []
unvisited (t ∷ ts) = (t, not_visit) ∷ unvisited ts

-- The answer, and the graph as the search leaves it.
unfoldable pub detect_deadlock : Map Set → Result (Bool × Map Set)
unfolding dfs_all dfs_fuel unvisited
detect_deadlock g = do
  d ←
      dfs_all (dfs_fuel g) (keys g)
        (record { graph = g; has_cycle = false; status = unvisited (keys g) })
  ok (d.has_cycle, d.graph)
