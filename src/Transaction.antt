-- ===== src/Transaction.antt =====
-- repcrec/transaction: what a transaction has read and written, site by site. Its `commit` calls the
-- transaction manager and stands in TransactionManager/Commit.
use rep_crec.Base.{Bool, [], ℤ, minus_one, Map, find_or, insert, contains}

-- `unordered_map<site_id_t, unordered_map<var_id_t, var_t>>`
abbrev pub Records : Type 0
Records = Map (Map ℤ)

pub record Transaction : Type 0 where
  pub timestamp : ℤ
  pub transaction_id : ℤ
  pub waiting_var_id : ℤ
  pub is_read_only : Bool
  pub write_records : Records
  pub read_accessed_sites : Records
  pub write_accessed_sites : Records

unfoldable pub new_transaction : ℤ → ℤ → Bool → Transaction
new_transaction transaction_id timestamp is_read_only = record {
  timestamp = timestamp;
  transaction_id = transaction_id;
  waiting_var_id = minus_one;
  is_read_only = is_read_only;
  write_records = [];
  read_accessed_sites = [];
  write_accessed_sites = [];
}

-- `records[site_id][var_id] = var`
unfoldable pub put_record : ℤ → ℤ → ℤ → Records → Records
put_record site_id var_id var r = insert site_id (insert var_id var (find_or [] site_id r)) r

unfoldable pub update_values : ℤ → ℤ → ℤ → Transaction → Transaction
unfolding put_record
update_values site_id var_id var t = record t {
  write_records = put_record site_id var_id var t.write_records;
  write_accessed_sites = put_record site_id var_id var t.write_accessed_sites;
}

unfoldable pub add_read_history : ℤ → ℤ → ℤ → Transaction → Transaction
unfolding put_record
add_read_history site_id var_id var t = record t {
  read_accessed_sites = put_record site_id var_id var t.read_accessed_sites;
}

unfoldable pub set_waiting_var_id : ℤ → Transaction → Transaction
set_waiting_var_id var_id t = record t { waiting_var_id = var_id }

unfoldable pub is_written_into_site : ℤ → Transaction → Bool
is_written_into_site site_id t = contains site_id t.write_accessed_sites
