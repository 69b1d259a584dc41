-- ===== src/LockManager/Acquire/Outcome.antt =====
-- What `try_acquire_write_lock` can answer.
use rep_crec.Base.{
  Bool, true, false, ◌≡◌, refl, sym, subst, ◌⊎◌, inl, inr, Option, none, some, [], ℤ, find, arith,
  ok, Option-cases, Bool-cases,
}
use rep_crec.Global.{
  LockStatus, need_to_wait, available_to_assign, has_read_lock, has_write_lock, site_unavailable,
  new_lock_status, is_odd, home_site,
}
use rep_crec.Variable.{Variable}
use rep_crec.Site.{is_write_available, get_variable}
use rep_crec.SiteManager.{SiteManager, site_ids}
use rep_crec.LockManager.{LockManager, is_empty, is_waiting_for_others}
use rep_crec.LockManager.Acquire.{
  next, return, collect, write_odd, write_copy, try_write_odd, try_write_even,
  try_acquire_write_lock,
}
use rep_crec.LockManager.Acquire.Owners.{collect_nonempty}
use rep_crec.LockManager.Acquire.Loop.{OnOk, OnOk_ok, loop_keeps, odd_up, odd_down, odd_absent}

-- So far no copy was in the way.
abbrev Clear : LockStatus → Type 0
Clear st = (st.status ≡ available_to_assign) ⊎ (st.status ≡ has_read_lock)

-- The write lock is held already, with no site to write to; or somebody is waited for, with no site
-- either; or no copy was in the way.
abbrev pub Settled : LockStatus → Type 0
Settled st =
    Clear st
    ⊎ (((st.status ≡ has_write_lock) × (st.site_id_set ≡ []))
        ⊎ ((st.status ≡ need_to_wait) × (st.site_id_set ≡ []) × (is_empty st.owner_id_set ≡ false)))

write_copy-Clear :
    (t : ℤ) (w : Bool) (sid : ℤ) (o : Option Variable) (st st' : LockStatus)
    → write_copy t w sid o st ≡ next st'
    → Clear st
    → Clear st'
unfolding write_copy
write_copy-Clear t w sid o st st' e c = ground arith

write_copy-Settled :
    (t : ℤ) (w : Bool) (sid : ℤ) (o : Option Variable) (st st' : LockStatus)
    → write_copy t w sid o st ≡ return st'
    → Settled st'
unfolding write_copy collect
write_copy-Settled t w sid none st st' e = ground arith
write_copy-Settled t w sid (some v) st st' e = ground (arith, collect_nonempty t v st.owner_id_set)

write_odd-Settled :
    (t : ℤ) (w : Bool) (sid : ℤ) (o : Option Variable) → Settled (write_odd t w sid o)
unfolding write_odd collect
write_odd-Settled t w sid none = ground arith
write_odd-Settled t w sid (some v) = ground (arith, collect_nonempty t v [])

module _ (sites : SiteManager) (t : ℤ) (w : Bool) (x : ℤ) where
  even_Settled : OnOk Settled (try_write_even sites t w x)
  unfolding try_write_even
  even_Settled =
      loop_keeps sites t w x Clear Settled
        (λ sid s st st' _ _ c k. write_copy-Clear t w sid (get_variable x s) st st' c k)
        (λ sid s st st' c _. write_copy-Settled t w sid (get_variable x s) st st' c) (λ st c. inl c)
        site_ids (record new_lock_status { status = available_to_assign }) (inl refl)

  -- The home site is down, or the answer is one of those of an even variable.
  abbrev SettledOrDown : LockStatus → Type 0
  SettledOrDown st = (st.status ≡ site_unavailable) ⊎ Settled st

  odd_Settled : OnOk SettledOrDown (try_write_odd sites t w x)
  odd_Settled = elim (Option-cases (find (home_site x) sites)) [
    | inl e ↦ subst (OnOk SettledOrDown) (sym (odd_absent sites t w x e)) tt
    | inr (s, e) ↦ elim (Bool-cases (is_write_available s)) [
      | inr down ↦ subst (OnOk SettledOrDown) (sym (odd_down sites t w x s e down)) (inl refl)
      | inl up ↦
          subst (OnOk SettledOrDown) (sym (odd_up sites t w x s e up))
            (inr (write_odd-Settled t w (home_site x) (get_variable x s)))
    ]
  ]

-- For an even variable the answer is that nothing is in the way, or that the write lock is held (and
-- then no site is named), or that the transaction must wait (and then there is somebody to wait for).
pub try_acquire_write_lock-Settled :
    (tran_id var_id : ℤ) (l : LockManager) (sites : SiteManager) {st : LockStatus}
    → is_odd var_id ≡ false
    → try_acquire_write_lock tran_id var_id l sites ≡ ok st
    → Settled st
unfolding try_acquire_write_lock
try_acquire_write_lock-Settled tran_id var_id l sites {st} even e =
    OnOk_ok Settled _ st (rw (← e, even))
      (even_Settled sites tran_id (is_waiting_for_others tran_id l) var_id)

-- For an odd variable the answer is that its only site is down, or that nothing is in the way, or that
-- the write lock is held (and then no site is named), or that the transaction must wait (and then
-- there is somebody to wait for).
pub try_acquire_write_lock-SettledOrDown :
    (tran_id var_id : ℤ) (l : LockManager) (sites : SiteManager) {st : LockStatus}
    → is_odd var_id ≡ true
    → try_acquire_write_lock tran_id var_id l sites ≡ ok st
    → (st.status ≡ site_unavailable) ⊎ Settled st
unfolding try_acquire_write_lock
try_acquire_write_lock-SettledOrDown tran_id var_id l sites {st} odd e =
    OnOk_ok (λ s. (s.status ≡ site_unavailable) ⊎ Settled s) _ st (rw (← e, odd))
      (odd_Settled sites tran_id (is_waiting_for_others tran_id l) var_id)
