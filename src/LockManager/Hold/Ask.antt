-- ===== src/LockManager/Hold/Ask.antt =====
-- At the sites that `try_acquire_write_lock` names, nobody but the asking transaction holds a lock.
use rep_crec.Base.{
  Bool, true, ◌≡◌, sym, subst, ◌⊎◌, inl, inr, Option, none, some, [], ◌∷◌, ℤ, mem, add, find,
  mem-add, arith, ok, Option-cases, Bool-cases, ℤ_discrete,
}
use rep_crec.Global.{LockStatus, available_to_assign, new_lock_status, is_odd, home_site}
use rep_crec.Variable.{Variable, has_shared_lock, has_exclusive_lock}
use rep_crec.Site.{Site, is_write_available, get_variable}
use rep_crec.SiteManager.{SiteManager, site_ids}
use rep_crec.SiteManager.Copies.{copy}
use rep_crec.LockManager.{LockManager, is_waiting_for_others}
use rep_crec.LockManager.Acquire.{
  next, return, can_promote, can_promote_odd, must_wait, write_odd, write_copy, try_write_odd,
  try_write_even, try_acquire_write_lock,
}
use rep_crec.Variable.Locks.{IsFree, IsFree-of_tests}
use rep_crec.LockManager.Acquire.Loop.{OnOk, OnOk_ok, loop_keeps, odd_up, odd_down, odd_absent}
use rep_crec.LockManager.Hold.{locked, Ours}

-- What makes a site be named.
abbrev Named : ℤ → Option Variable → Type 0
Named t o = (v : Variable) → o ≡ some v → (has_shared_lock t v ≡ true) ⊎ IsFree v

write_copy-Named :
    (t : ℤ) (w : Bool) (sid : ℤ) (o : Option Variable) (st st' : LockStatus)
    → write_copy t w sid o st ≡ next st'
    → (st'.site_id_set ≡ add sid st.site_id_set) × Named t o
unfolding write_copy can_promote must_wait
write_copy-Named t w sid none st st' e = (ground arith, λ v p. absurd cc)
write_copy-Named t w sid (some v) st st' e = (
  ground arith,
  λ x p. elim (Bool-cases (has_shared_lock t v)) [
    | inl h ↦ inl (ground arith)
    | inr h ↦ inr (ground (arith, IsFree-of_tests t v))
  ],
)

write_copy_stops :
    (t : ℤ) (w : Bool) (sid : ℤ) (o : Option Variable) (st st' : LockStatus)
    → write_copy t w sid o st ≡ return st'
    → st'.site_id_set ≡ []
unfolding write_copy
write_copy_stops t w sid o st st' e = ground arith

write_odd_test :
    (t : ℤ) (w : Bool) (sid : ℤ) (v : Variable)
    → ((write_odd t w sid (some v)).site_id_set ≡ [])
      ⊎ (((write_odd t w sid (some v)).site_id_set ≡ sid ∷ [])
          × ((has_shared_lock t v ≡ true) ⊎ IsFree v))
unfolding write_odd can_promote_odd must_wait
write_odd_test t w sid v = elim (Bool-cases (has_shared_lock t v)) [
  | inl h ↦ elim (Bool-cases (can_promote_odd t w v)) [
    | inl c ↦ inr (ground arith, inl h)
    | inr c ↦ inl (ground arith)
  ]
  | inr h ↦ elim (Bool-cases (must_wait t v)) [
    | inl c ↦ inl (ground arith)
    | inr c ↦ elim (Bool-cases (has_exclusive_lock t v)) [
      | inl x ↦ inl (ground arith)
      | inr x ↦ inr (ground arith, inr (ground (arith, IsFree-of_tests t v)))
    ]
  ]
]

write_odd-Named :
    (t : ℤ) (w : Bool) (sid : ℤ) (o : Option Variable)
    → ((write_odd t w sid o).site_id_set ≡ [])
      ⊎ (((write_odd t w sid o).site_id_set ≡ sid ∷ []) × Named t o)
unfolding write_odd
write_odd-Named t w sid none = ground arith
write_odd-Named t w sid (some v) = elim (write_odd_test t w sid v) [
  | inl p ↦ inl p
  | inr (p, c) ↦ inr (p, λ x q. elim c [ inl h ↦ inl (ground arith) | inr f ↦ inr (ground arith) ])
]

module _ (sites : SiteManager) (t : ℤ) (w : Bool) (x : ℤ)
    (sole : (a u : ℤ) → locked t a x sites ≡ true → locked u a x sites ≡ true → t ≡ u) where
  Named-ours :
      (sid u : ℤ) (s : Site)
      → find sid sites ≡ some s
      → Named t (get_variable x s)
      → locked u sid x sites ≡ true
      → u ≡ t
  unfolding has_shared_lock has_exclusive_lock get_variable
  Named-ours sid u s found named h = elim (Option-cases (copy sid x sites)) [
    | inl n ↦ absurd (ground arith)
    | inr (v, p) ↦ elim (named v (ground arith)) [
      | inl q ↦ sym (sole sid u (ground arith) h)
      | inr q ↦ absurd (ground arith)
    ]
  ]

  abbrev Rightly : LockStatus → Type 0
  Rightly st = (sid u : ℤ) → mem sid st.site_id_set ≡ true → locked u sid x sites ≡ true → u ≡ t

  round_ours :
      (sid : ℤ) (s : Site) (st st' : LockStatus)
      → find sid sites ≡ some s
      → write_copy t w sid (get_variable x s) st ≡ next st'
      → Rightly st
      → Rightly st'
  round_ours sid s st st' found e o k u m h =
      let (added, named) = write_copy-Named t w sid (get_variable x s) st st' e in
      elim (ℤ_discrete k sid) [
        | yes p ↦ Named-ours sid u s found named (subst (λ y. locked u y x sites ≡ true) p h)
        | no p ↦ o k u (ground (arith, mem-add k sid st.site_id_set)) h
      ]

  even-Rightly : OnOk Rightly (try_write_even sites t w x)
  unfolding try_write_even
  even-Rightly =
      loop_keeps sites t w x Rightly Rightly
        (λ sid s st st' e up c o. round_ours sid s st st' e c o)
        (λ sid s st st' c o k u m h.
          let p = write_copy_stops t w sid (get_variable x s) st st' c in absurd (ground arith))
        (λ st o. o) site_ids (record new_lock_status { status = available_to_assign })
        (λ k u m h. absurd cc)

  abbrev OursAt : LockStatus → Type 0
  OursAt st = Ours t st.site_id_set x sites

  odd_named :
      (s : Site)
      → find (home_site x) sites ≡ some s
      → OursAt (write_odd t w (home_site x) (get_variable x s))
  odd_named s e = elim (write_odd-Named t w (home_site x) (get_variable x s)) [
    | inl p ↦ (λ k u m h. absurd (ground arith), λ k m _. absurd (ground arith))
    | inr (p, named) ↦ (
      λ k u m h.
          let q : k ≡ home_site x = ground arith in
          Named-ours (home_site x) u s e named (subst (λ y. locked u y x sites ≡ true) q h),
      λ k m _. ground arith,
    )
  ]

  odd_Ours : OnOk OursAt (try_write_odd sites t w x)
  odd_Ours = elim (Option-cases (find (home_site x) sites)) [
    | inl e ↦ subst (OnOk OursAt) (sym (odd_absent sites t w x e)) tt
    | inr (s, e) ↦ elim (Bool-cases (is_write_available s)) [
      | inr down ↦
          subst (OnOk OursAt) (sym (odd_down sites t w x s e down))
            (λ k u m h. absurd cc, λ k m _. absurd cc)
      | inl up ↦ subst (OnOk OursAt) (sym (odd_up sites t w x s e up)) (odd_named s e)
    ]
  ]

pub try_acquire_write_lock-Ours :
    (t x : ℤ) (l : LockManager) (sites : SiteManager) {st : LockStatus}
    → ((a u : ℤ) → locked t a x sites ≡ true → locked u a x sites ≡ true → t ≡ u)
    → try_acquire_write_lock t x l sites ≡ ok st
    → Ours t st.site_id_set x sites
unfolding try_acquire_write_lock
try_acquire_write_lock-Ours t x l sites {st} sole e = elim (Bool-cases (is_odd x)) [
  | inl odd ↦
      OnOk_ok (λ y. Ours t y.site_id_set x sites) _ st (rw (← e, odd))
        (odd_Ours sites t (is_waiting_for_others t l) x sole)
  | inr even ↦ (
    OnOk_ok (λ y. (sid u : ℤ) → mem sid y.site_id_set ≡ true → locked u sid x sites ≡ true → u ≡ t)
        _ st (rw (← e, even)) (even-Rightly sites t (is_waiting_for_others t l) x sole),
    λ k m odd. absurd cc,
  )
]
