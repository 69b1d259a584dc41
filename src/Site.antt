-- ===== src/Site.antt =====
-- repcrec/site: the copies that one site holds, and what of it can be read and written. A null
-- pointer in the map of the variables is an absent key.
pub mod Print
use rep_crec.Base.{
  Bool, true, false, not, ◌&&◌, Option, none, some, List, [], ◌∷◌, ℤ, pos, rem_ℤ, ◌+ℤ◌, ◌==ℤ◌,
  if◌then◌else◌, Result, ok, or_fail, null_pointer, ◌>>=◌, Map, find, find_or, insert, range,
}
use rep_crec.Global.{var_count}
use rep_crec.Variable.{Variable, new_variable, set_value}

pub record Site : Type 0 where
  pub id : ℤ
  pub write_available : Bool
  pub read_available_map : Map Bool
  pub variables : Map Variable

unfoldable pub new_variables : List ℤ → Map Variable
new_variables [] = []
new_variables (v ∷ vs) = (v, new_variable v) ∷ new_variables vs

unfoldable pub set_all : Bool → List ℤ → Map Bool → Map Bool
set_all b [] m = m
set_all b (v ∷ vs) m = set_all b vs (insert v b m)

-- `Site()`; the static counter that gives the ids is the argument.
unfoldable pub new_site : ℤ → Site
unfolding range new_variables set_all
new_site id = record {
  id = id;
  write_available = true;
  read_available_map = set_all true (range 1 var_count) [];
  variables = new_variables (range 1 var_count);
}

-- `read_available_map_[var_id]`: a key that is not there reads as `false`.
unfoldable pub is_read_available : ℤ → Site → Bool
is_read_available var_id s = find_or false var_id s.read_available_map

unfoldable pub is_write_available : Site → Bool
is_write_available s = s.write_available

unfoldable pub get_variable : ℤ → Site → Option Variable
get_variable var_id s = find var_id s.variables

-- `get_variable(var_id)->`
unfoldable pub deref_variable : ℤ → Site → Result Variable
unfolding get_variable
deref_variable var_id s = or_fail (get_variable var_id s) null_pointer

-- The object behind the pointer is changed.
unfoldable pub put_variable : ℤ → Variable → Site → Site
put_variable var_id v s = record s { variables = insert var_id v s.variables }

unfoldable pub assign_var : ℤ → ℤ → ℤ → Site → Result Site
unfolding deref_variable put_variable
assign_var var_id value timestamp s = do
  v ← deref_variable var_id s
  ok (put_variable var_id (set_value value timestamp v) s)

unfoldable pub set_unavailable : Site → Site
unfolding set_all range
set_unavailable s = record s {
  read_available_map = set_all false (range 1 var_count) s.read_available_map;
  write_available = false;
}

unfoldable pub set_read_available : ℤ → Site → Site
set_read_available var_id s = record s {
  read_available_map = insert var_id true s.read_available_map;
}

unfoldable pub set_write_available : Site → Site
set_write_available s = record s { write_available = true }

-- One row of the dump: a cell for each variable, empty where the site has no copy of its own.
unfoldable pub dump_cells : ℤ → Map Variable → List (Option (ℤ × ℤ))
dump_cells id [] = []
dump_cells id ((k, v) ∷ vs) =
    (if (rem_ℤ v.id 2 ==ℤ pos 1) && not (id ==ℤ (rem_ℤ v.id 10 +ℤ pos 1))
      then none
      else some (v.id, v.value))
    ∷ dump_cells id vs

unfoldable pub dump : Site → ℤ × List (Option (ℤ × ℤ))
unfolding dump_cells
dump s = (s.id, dump_cells s.id s.variables)
