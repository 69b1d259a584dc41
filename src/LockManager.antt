-- ===== src/LockManager.antt =====
-- repcrec/lock_manager: the table of the locks that each transaction holds, and the graph of who
-- waits for whom. The sites and the transactions, which the source takes from the singleton, are
-- arguments.
pub mod Acquire
pub mod Assign
pub mod Release
pub mod Deadlock
pub mod Hold
use rep_crec.Base.{
  Bool, true, false, not, ◌&&◌, ◌||◌, [], ◌∷◌, ℤ, ◌==ℤ◌, Map, Set, find, find_or, insert, erase,
  mem, add, remove, if◌then◌else◌, none, some,
}

pub record LockManager : Type 0 where
  pub lock_table : Map Set
  pub wait_for_graph : Map Set

unfoldable pub new_lock_manager : LockManager
new_lock_manager = record { lock_table = []; wait_for_graph = [] }

abbrev pub is_empty : Set → Bool
is_empty [] = true
is_empty (x ∷ s) = false

-- `m[key].insert(element)`
unfoldable pub insert_at : ℤ → ℤ → Map Set → Map Set
insert_at key element m = insert key (add element (find_or [] key m)) m

unfoldable pub add_edges : ℤ → Set → Map Set → Map Set
unfolding insert_at
add_edges tran_id [] g = g
add_edges tran_id (owner_id ∷ owner_ids) g =
    add_edges tran_id owner_ids (insert_at tran_id owner_id g)

unfoldable pub assign_wait_for_graph : ℤ → Set → LockManager → LockManager
unfolding add_edges
assign_wait_for_graph tran_id owner_ids l = record l {
  wait_for_graph = add_edges tran_id owner_ids l.wait_for_graph;
}

unfoldable pub is_waiting : ℤ → Map Set → Bool
is_waiting tran_id g = elim (find tran_id g) [ none ↦ false | some tids ↦ not (is_empty tids) ]

unfoldable pub is_waiting_for_lock : ℤ → LockManager → Bool
unfolding is_waiting
is_waiting_for_lock tran_id l = is_waiting tran_id l.wait_for_graph

-- Somebody else waits for the transaction.
unfoldable pub is_waited_for : ℤ → Map Set → Bool
is_waited_for tran_id [] = false
is_waited_for tran_id ((tid, tids) ∷ g) =
    (not (tid ==ℤ tran_id) && mem tran_id tids) || is_waited_for tran_id g

-- The name is the source's: it asks whether others wait for the transaction.
unfoldable pub is_waiting_for_others : ℤ → LockManager → Bool
unfolding is_waited_for
is_waiting_for_others tran_id l = is_waited_for tran_id l.wait_for_graph

unfoldable pub remove_self_from_wait_for_graph : ℤ → LockManager → LockManager
remove_self_from_wait_for_graph tran_id l = record l {
  wait_for_graph = elim (find tran_id l.wait_for_graph) [
    | none ↦ l.wait_for_graph
    | some tids ↦
        if mem tran_id tids
        then if is_empty (remove tran_id tids)
          then erase tran_id l.wait_for_graph
          else insert tran_id (remove tran_id tids) l.wait_for_graph
        else l.wait_for_graph
  ];
}
