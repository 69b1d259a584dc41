-- ===== src/LockManager/Acquire/Cover.antt =====
-- Where a write lock of an even variable is available, every site that is up is named.
use rep_crec.Base.{
  Option, Bool, true, false, ◌≡◌, ap, ◌∙◌, inl, inr, none, some, List, [], ◌∷◌, ℤ, mem, add,
  mem-add, find, ok, err, null_pointer, arith, Option-cases, Bool-cases, ℤ_discrete,
}
use rep_crec.Global.{LockStatus, available_to_assign, new_lock_status, is_odd}
use rep_crec.Site.{get_variable, is_write_available}
use rep_crec.SiteManager.{SiteManager, site_ids, get_site}
use rep_crec.LockManager.{LockManager, is_waiting_for_others}
use rep_crec.LockManager.Acquire.{
  next, write_copy, write_round, write_loop, try_write_even, try_acquire_write_lock,
}
use rep_crec.LockManager.Acquire.Grant.{write_copy-return}
use rep_crec.LockManager.Acquire.Loop.{Flow-cases}
use rep_crec.Variable.{Variable}
use rep_crec.LockManager.Release.Sites.{writable}

write_copy-adds :
    (t : ℤ) (w : Bool) (sid : ℤ) (o : Option Variable) (st st' : LockStatus)
    → write_copy t w sid o st ≡ next st'
    → st'.site_id_set ≡ add sid st.site_id_set
unfolding write_copy
write_copy-adds t w sid none st st' e = ground arith
write_copy-adds t w sid (some v) st st' e = ground arith

module _ (sites : SiteManager) (t : ℤ) (w : Bool) (x : ℤ) where
  -- The set of the sites grows, and takes in the sites of the list that are up.
  abbrev Covers : List ℤ → LockStatus → LockStatus → Type 0
  Covers sids st st' =
      ((a : ℤ) → mem a st.site_id_set ≡ true → mem a st'.site_id_set ≡ true)
      × ((a : ℤ) → mem a sids ≡ true → writable a sites ≡ true → mem a st'.site_id_set ≡ true)

  write_loop-Covers :
      (sids : List ℤ) (st st' : LockStatus)
      → write_loop sites t w x sids st ≡ ok st'
      → st'.status ≡ available_to_assign
      → Covers sids st st'
  unfolding write_loop write_round get_site is_write_available
  write_loop-Covers [] st st' e a = (λ k m. ground arith, λ k m. absurd cc)
  write_loop-Covers (sid ∷ sids) st st' e a = elim (Option-cases (find sid sites)) [
    | inl n ↦
        absurd
          (let k : write_loop sites t w x (sid ∷ sids) st ≡ err null_pointer = ground arith in cc)
    | inr (s, found) ↦ elim (Bool-cases (is_write_available s)) [
      | inr down ↦
          let (grows, covers) = write_loop-Covers sids st st' (ground arith) a in
          (
            grows,
            λ k m up. elim (ℤ_discrete k sid) [
              | yes p ↦ absurd (ground arith)
              | no p ↦ covers k (ground arith) up
            ],
          )
      | inl up ↦ elim (Flow-cases (write_copy t w sid (get_variable x s) st)) [
        | inr (st1, c) ↦
            let p : st1 ≡ st' = ground arith in
            absurd
              (write_copy-return t w sid (get_variable x s) st st1 c (ap (λ y. y.status) p ∙ a))
        | inl (st1, c) ↦
            let (grows, covers) = write_loop-Covers sids st1 st' (ground arith) a in
            let added = λ (k : ℤ).
              ap (mem k) (write_copy-adds t w sid (get_variable x s) st st1 c)
              ∙ mem-add k sid st.site_id_set in
            (
              λ k m. grows k (added k ∙ ground arith),
              λ k m y. elim (ℤ_discrete k sid) [
                | yes p ↦ grows k (added k ∙ ground arith)
                | no p ↦ covers k (ground arith) y
              ],
            )
      ]
    ]
  ]

-- Where the write lock of an even variable is available, each of the ten sites that is up is named.
pub try_acquire_write_lock-covers :
    (t x a : ℤ) (l : LockManager) (sites : SiteManager) {st : LockStatus}
    → is_odd x ≡ false
    → try_acquire_write_lock t x l sites ≡ ok st
    → st.status ≡ available_to_assign
    → mem a site_ids ≡ true
    → writable a sites ≡ true
    → mem a st.site_id_set ≡ true
unfolding try_acquire_write_lock try_write_even
try_acquire_write_lock-covers t x a l sites {st} even e available here up =
    (write_loop-Covers sites t (is_waiting_for_others t l) x site_ids
        (record new_lock_status { status = available_to_assign }) st (ground arith) available).1
      a here up
