-- ===== src/Global.antt =====
-- repcrec/global.h, and the arithmetic that places variables on sites.
use rep_crec.Base.{ℕ, ◌+◌, ◌%◌, Bool, ℤ, pos, negsuc, sub_ℕ, ◌==◌, Set, []}

pub data LockState : Type 0 where
  unknown has_read_lock has_write_lock need_to_wait site_unavailable has_read_write_lock
        available_to_assign :
      LockState

-- `struct LockStatus`
pub record LockStatus : Type 0 where
  pub site_id_set : Set
  pub status : LockState
  pub owner_id_set : Set

abbrev pub new_lock_status : LockStatus
new_lock_status = record { site_id_set = []; status = unknown; owner_id_set = [] }

abbrev pub site_count : ℕ
site_count = 10

abbrev pub var_count : ℕ
var_count = 20

-- `(var_id & 0x01) == 1`, in two's complement
unfoldable pub is_odd : ℤ → Bool
is_odd (pos n) = (n % 2) == 1
is_odd (negsuc n) = ((n + 1) % 2) == 1

-- `1 + var_id % 10`; the remainder of a negative number is not positive
unfoldable pub home_site : ℤ → ℤ
home_site (pos n) = pos (1 + n % 10)
home_site (negsuc n) = sub_ℕ 1 ((n + 1) % 10)
