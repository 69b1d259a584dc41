-- ===== src/LockManager/Acquire/Loop.antt =====
-- The loop of `try_acquire_write_lock` over the sites: what each round does, and a rule for what holds
-- of the result.
use rep_crec.Base.{
  Bool, true, false, ◌≡◌, refl, sym, subst, ◌⊎◌, inl, inr, none, some, List, [], ◌∷◌, ℤ, find,
  arith, Result, ok, err, null_pointer, Option-cases, Bool-cases,
}
use rep_crec.Global.{LockStatus, site_unavailable, new_lock_status, home_site}
use rep_crec.Site.{Site, is_write_available, get_variable}
use rep_crec.SiteManager.{SiteManager, get_site}
use rep_crec.LockManager.Acquire.{
  Flow, next, return, write_odd, write_copy, write_round, write_loop, try_write_odd,
}

pub Flow-cases : {A : Type 0} (f : Flow A) → ((a : A) × (f ≡ next a)) ⊎ ((a : A) × (f ≡ return a))
Flow-cases (next a) = inl (a, refl)
Flow-cases (return a) = inr (a, refl)

-- A property of what is returned, if the call returns.
abbrev pub OnOk : (LockStatus → Type 0) → Result LockStatus → Type 0
OnOk P (err e) = Unit {0}
OnOk P (ok st) = P st

pub OnOk_ok :
    (P : LockStatus → Type 0) (r : Result LockStatus) (st : LockStatus)
    → r ≡ ok st
    → OnOk P r
    → P st
OnOk_ok P r st e p = subst (OnOk P) e p

module _ (sites : SiteManager) (t : ℤ) (w : Bool) (x : ℤ) where
  module _ (sid : ℤ) (sids : List ℤ) (st : LockStatus) where
    loop_absent : find sid sites ≡ none → write_loop sites t w x (sid ∷ sids) st ≡ err null_pointer
    unfolding write_loop write_round get_site
    loop_absent e = ground arith

    loop_down :
        (s : Site)
        → find sid sites ≡ some s
        → is_write_available s ≡ false
        → write_loop sites t w x (sid ∷ sids) st ≡ write_loop sites t w x sids st
    unfolding write_loop write_round get_site
    loop_down s e d = ground arith

    loop_next :
        (s : Site) (st' : LockStatus)
        → find sid sites ≡ some s
        → is_write_available s ≡ true
        → write_copy t w sid (get_variable x s) st ≡ next st'
        → write_loop sites t w x (sid ∷ sids) st ≡ write_loop sites t w x sids st'
    unfolding write_loop write_round get_site
    loop_next s st' e u c = ground arith

    loop_return :
        (s : Site) (st' : LockStatus)
        → find sid sites ≡ some s
        → is_write_available s ≡ true
        → write_copy t w sid (get_variable x s) st ≡ return st'
        → write_loop sites t w x (sid ∷ sids) st ≡ ok st'
    unfolding write_loop write_round get_site
    loop_return s st' e u c = ground arith

  pub odd_up :
      (s : Site)
      → find (home_site x) sites ≡ some s
      → is_write_available s ≡ true
      → try_write_odd sites t w x ≡ ok (write_odd t w (home_site x) (get_variable x s))
  unfolding try_write_odd get_site
  odd_up s e u = ground arith

  pub odd_down :
      (s : Site)
      → find (home_site x) sites ≡ some s
      → is_write_available s ≡ false
      → try_write_odd sites t w x ≡ ok (record new_lock_status { status = site_unavailable })
  unfolding try_write_odd get_site
  odd_down s e u = ground arith

  pub odd_absent : find (home_site x) sites ≡ none → try_write_odd sites t w x ≡ err null_pointer
  unfolding try_write_odd get_site
  odd_absent e = ground arith

  -- What holds of the status through the loop over the sites.
  module _ (P Q : LockStatus → Type 0)
      (goes : (sid : ℤ) (s : Site) (st st' : LockStatus)
        → find sid sites ≡ some s
        → is_write_available s ≡ true
        → write_copy t w sid (get_variable x s) st ≡ next st'
        → P st
        → P st')
      (stops : (sid : ℤ) (s : Site) (st st' : LockStatus)
        → write_copy t w sid (get_variable x s) st ≡ return st'
        → P st
        → Q st')
      (ends : (st : LockStatus) → P st → Q st) where
    pub loop_keeps :
        (sids : List ℤ) (st : LockStatus) → P st → OnOk Q (write_loop sites t w x sids st)
    unfolding write_loop
    loop_keeps [] st p = ends st p
    loop_keeps (sid ∷ sids) st p = elim (Option-cases (find sid sites)) [
      | inl e ↦ subst (OnOk Q) (sym (loop_absent sid sids st e)) tt
      | inr (s, e) ↦ elim (Bool-cases (is_write_available s)) [
        | inr down ↦ subst (OnOk Q) (sym (loop_down sid sids st s e down)) (loop_keeps sids st p)
        | inl up ↦ elim (Flow-cases (write_copy t w sid (get_variable x s) st)) [
          | inl (st', c) ↦
              subst (OnOk Q) (sym (loop_next sid sids st s st' e up c))
                (loop_keeps sids st' (goes sid s st st' e up c p))
          | inr (st', c) ↦
              subst (OnOk Q) (sym (loop_return sid sids st s st' e up c)) (stops sid s st st' c p)
        ]
      ]
    ]
