-- ===== src/Request.antt =====
-- repcrec/request: the requests and what they print. The classes derived from `Request` are the
-- constructors of `Kind`, each with the fields of its own.
pub mod Write
pub mod Read
pub mod Exec
use rep_crec.Base.{Bool, List, Option, ℤ, minus_one}
use rep_crec.Instruction.{InstructType, unknown}

pub data Kind : Type 0 where
  write : ℤ → Kind
  read : Kind
  create : Bool → Kind
  end dump fail recovery : Kind

pub record Request : Type 0 where
  pub timestamp : ℤ
  pub tran_id : ℤ
  pub site_id : ℤ
  pub var_id : ℤ
  pub type : InstructType
  pub kind : Kind

unfoldable pub write_request : ℤ → ℤ → ℤ → ℤ → ℤ → Request
write_request timestamp tran_id site_id var_id value = record {
  timestamp = timestamp;
  tran_id = tran_id;
  site_id = site_id;
  var_id = var_id;
  type = unknown;
  kind = write value;
}

unfoldable pub read_request : ℤ → ℤ → ℤ → Request
read_request timestamp tran_id var_id = record {
  timestamp = timestamp;
  tran_id = tran_id;
  site_id = minus_one;
  var_id = var_id;
  type = unknown;
  kind = read;
}

-- The constructors that default the site and the variable to -1.
unfoldable pub plain_request : Kind → ℤ → ℤ → ℤ → Request
plain_request kind timestamp tran_id site_id = record {
  timestamp = timestamp;
  tran_id = tran_id;
  site_id = site_id;
  var_id = minus_one;
  type = unknown;
  kind = kind;
}

unfoldable pub create_request : ℤ → ℤ → Bool → Request
unfolding plain_request
create_request timestamp tran_id is_read_only =
    plain_request (create is_read_only) timestamp tran_id minus_one

unfoldable pub end_request : ℤ → ℤ → Request
unfolding plain_request
end_request timestamp tran_id = plain_request end timestamp tran_id minus_one

unfoldable pub dump_request : ℤ → Request
unfolding plain_request
dump_request timestamp = plain_request dump timestamp minus_one minus_one

unfoldable pub fail_request : ℤ → ℤ → Request
unfolding plain_request
fail_request timestamp site_id = plain_request fail timestamp minus_one site_id

unfoldable pub recovery_request : ℤ → ℤ → Request
unfolding plain_request
recovery_request timestamp site_id = plain_request recovery timestamp minus_one site_id

unfoldable pub set_type : InstructType → Request → Request
set_type type r = record r { type = type }

-- What the program prints, one constructor for each `printf`: transaction, variable, value, site,
-- in this order.
pub data Message : Type 0 where
  created aborted committed commit_failed promotes site_failed site_recovered : ℤ → Message
  waiting already_write_lock already_exclusive_lock got_write_lock got_shared_lock
        already_read_write_lock :
      ℤ → ℤ → Message
  write_unavailable read_unavailable waiting_at got_write_lock_at updates reads reads_only :
      ℤ → ℤ → ℤ → Message
  reads_at reads_only_at : ℤ → ℤ → ℤ → ℤ → Message
  dumped : List (ℤ × List (Option (ℤ × ℤ))) → Message
