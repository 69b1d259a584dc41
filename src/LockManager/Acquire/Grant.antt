-- ===== src/LockManager/Acquire/Grant.antt =====
-- When `try_acquire_write_lock` finds a lock available.
use rep_crec.Base.{
  Bool, true, ◌≡◌, sym, subst, ap, ◌≢◌, inl, inr, ◌∙◌, Option, none, some, [], ◌∷◌, ℤ, mem, add,
  find, mem-add, arith, ok, Option-cases, Bool-cases, ℤ_discrete,
}
use rep_crec.Global.{LockStatus, available_to_assign, new_lock_status, is_odd, home_site}
use rep_crec.Variable.{Variable}
use rep_crec.Site.{Site, is_write_available, get_variable}
use rep_crec.SiteManager.{SiteManager, site_ids}
use rep_crec.LockManager.{LockManager, is_waiting_for_others}
use rep_crec.LockManager.Acquire.{
  next, return, can_promote, can_promote_odd, must_wait, write_odd, write_copy, try_write_odd,
  try_write_even, try_acquire_write_lock,
}
use rep_crec.Variable.Locks.{IsFree, IsFree-of_tests}
use rep_crec.LockManager.Acquire.Loop.{OnOk, OnOk_ok, loop_keeps, odd_up, odd_down, odd_absent}

-- The site is up and nobody holds a lock of its copy.
abbrev pub Grantable : SiteManager → ℤ → ℤ → Type 0
Grantable sites x sid =
    (s : Site)
    → find sid sites ≡ some s
    → (is_write_available s ≡ true) × ((v : Variable) → get_variable x s ≡ some v → IsFree v)

abbrev pub IsGrant : SiteManager → ℤ → LockStatus → Type 0
IsGrant sites x st =
    st.status ≡ available_to_assign
    → (sid : ℤ) → mem sid st.site_id_set ≡ true
    → Grantable sites x sid

pub write_copy-return :
    (t : ℤ) (w : Bool) (sid : ℤ) (o : Option Variable) (st st' : LockStatus)
    → write_copy t w sid o st ≡ return st'
    → st'.status ≢ available_to_assign
unfolding write_copy
write_copy-return t w sid o st st' e = ground arith

write_copy-next :
    (t : ℤ) (w : Bool) (sid : ℤ) (o : Option Variable) (st st' : LockStatus)
    → write_copy t w sid o st ≡ next st'
    → st'.status ≡ available_to_assign
    → (st.status ≡ available_to_assign)
      × (st'.site_id_set ≡ add sid st.site_id_set)
      × ((v : Variable) → o ≡ some v → IsFree v)
unfolding write_copy can_promote must_wait
write_copy-next t w sid none st st' e a = ground arith
write_copy-next t w sid (some v) st st' e a =
    (ground arith, ground arith, λ x p. ground (arith, IsFree-of_tests t v))

write_odd-grant :
    (t : ℤ) (w : Bool) (sid : ℤ) (o : Option Variable)
    → (write_odd t w sid o).status ≡ available_to_assign
    → ((write_odd t w sid o).site_id_set ≡ sid ∷ []) × ((v : Variable) → o ≡ some v → IsFree v)
unfolding write_odd can_promote_odd must_wait
write_odd-grant t w sid none a = ground arith
write_odd-grant t w sid (some v) a = (ground arith, λ x p. ground (arith, IsFree-of_tests t v))

module _ (sites : SiteManager) (t : ℤ) (w : Bool) (x : ℤ) where
  -- One round keeps what the set of the sites means.
  round_next :
      (sid : ℤ) (s : Site) (st st' : LockStatus)
      → find sid sites ≡ some s
      → write_copy t w sid (get_variable x s) st ≡ next st'
      → is_write_available s ≡ true
      → IsGrant sites x st
      → IsGrant sites x st'
  round_next sid s st st' found e up i a k m =
      let (a', added, free) = write_copy-next t w sid (get_variable x s) st st' e a in
      elim (ℤ_discrete k sid) [
        | yes p ↦ λ s' found'.
            let q : s ≡ s' = cc in
            (
              subst (λ y. is_write_available y ≡ true) q up,
              λ v h. free v (ap (get_variable x) q ∙ h),
            )
        | no p ↦ i a' k (ground (arith, mem-add k sid st.site_id_set))
      ]

  even_IsGrant : OnOk (IsGrant sites x) (try_write_even sites t w x)
  unfolding try_write_even
  even_IsGrant =
      loop_keeps sites t w x (IsGrant sites x) (IsGrant sites x)
        (λ sid s st st' e up c i. round_next sid s st st' e c up i)
        (λ sid s st st' c i a. absurd (write_copy-return t w sid (get_variable x s) st st' c a))
        (λ st i. i) site_ids (record new_lock_status { status = available_to_assign })
        (λ a k m. absurd cc)

  write_odd-IsGrant :
      (s : Site)
      → find (home_site x) sites ≡ some s
      → is_write_available s ≡ true
      → IsGrant sites x (write_odd t w (home_site x) (get_variable x s))
  write_odd-IsGrant s e up a k m s' found' =
      let (alone, free) = write_odd-grant t w (home_site x) (get_variable x s) a in
      let p : k ≡ home_site x = ground arith in
      let q : s ≡ s' = cc in
      (subst (λ y. is_write_available y ≡ true) q up, λ v h. free v (ap (get_variable x) q ∙ h))

  odd_IsGrant : OnOk (IsGrant sites x) (try_write_odd sites t w x)
  odd_IsGrant = elim (Option-cases (find (home_site x) sites)) [
    | inl e ↦ subst (OnOk (IsGrant sites x)) (sym (odd_absent sites t w x e)) tt
    | inr (s, e) ↦ elim (Bool-cases (is_write_available s)) [
      | inr down ↦
          subst (OnOk (IsGrant sites x)) (sym (odd_down sites t w x s e down)) (λ a k m. absurd cc)
      | inl up ↦
          subst (OnOk (IsGrant sites x)) (sym (odd_up sites t w x s e up))
            (write_odd-IsGrant s e up)
    ]
  ]

try_acquire_write_lock-IsGrant :
    (tran_id var_id : ℤ) (l : LockManager) (sites : SiteManager) {st : LockStatus}
    → try_acquire_write_lock tran_id var_id l sites ≡ ok st
    → IsGrant sites var_id st
unfolding try_acquire_write_lock
try_acquire_write_lock-IsGrant tran_id var_id l sites {st} e = elim (Bool-cases (is_odd var_id)) [
  | inl odd ↦
      OnOk_ok (IsGrant sites var_id) _ st (rw (← e, odd)) (odd_IsGrant sites tran_id waited var_id)
  | inr even ↦
      OnOk_ok (IsGrant sites var_id) _ st (rw (← e, even))
        (even_IsGrant sites tran_id waited var_id)
]
  where
    waited : Bool
    waited = is_waiting_for_others tran_id l

-- Where the answer is that a write lock is available at some sites, it may be granted: each of these
-- sites that has a copy of the variable is up, and nobody holds any lock of the copy.
pub try_acquire_write_lock_grants :
    (tran_id var_id sid : ℤ) (l : LockManager) (sites : SiteManager) (s : Site) (v : Variable)
    {st : LockStatus}
    → try_acquire_write_lock tran_id var_id l sites ≡ ok st
    → st.status ≡ available_to_assign
    → mem sid st.site_id_set ≡ true
    → find sid sites ≡ some s
    → get_variable var_id s ≡ some v
    → (is_write_available s ≡ true) × IsFree v
try_acquire_write_lock_grants tran_id var_id sid l sites s v e a m found copy =
    let (up, free) = try_acquire_write_lock-IsGrant tran_id var_id l sites e a sid m s found in
    (up, free v copy)
