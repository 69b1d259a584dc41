-- ===== src/Request/Exec/Recover.antt =====
-- The recovery of a site: `RecoveryRequest::exec`.
use rep_crec.Base.{
  tested, tested_lem, refl, ℕ, suc, ◌<◌, false, not, ℤ_discrete, ◌+ℤ◌, if◌then◌else◌, Bool, pos,
  minus_one, inr, inl, true, ◌≡◌, ◌&&◌, ◌||◌, some, ℤ, ◌==ℤ◌, find, insert, find-insert_self,
  find-insert_ne, arith, ok, Option-cases, Bool-cases, ap, ◌∙◌,
}
use rep_crec.Global.{is_odd, home_site}
use rep_crec.Site.{Site, set_write_available, set_read_available, is_read_available}
use rep_crec.SiteManager.{on_site, get_site, put_site}
use rep_crec.TransactionManager.Commit.Install.{readable}
use rep_crec.Request.{site_recovered}
use rep_crec.Request.Exec.{exec_recovery, change_site}
use rep_crec.TransactionManager.{
  TransactionManager, ◌>>◌, pure, bind-eq-ok, print, remove_from_site_waiting_map,
}

pub change_site-eq-ok :
    (k : ℤ) (f : Site → Site) (tm : TransactionManager) {tm' : TransactionManager}
    → change_site k f tm ≡ ok (tt, tm')
    → (s : Site) × (find k tm.site_manager ≡ some s)
      × (tm'.site_manager ≡ insert k (f s) tm.site_manager)
unfolding change_site on_site get_site put_site
change_site-eq-ok k f tm {tm'} e = elim (Option-cases (find k tm.site_manager)) [
  | inl n ↦ absurd (ground arith)
  | inr (s, found) ↦ (s, found, ground arith)
]

-- Making a variable readable makes this one readable, and no other.
change_site-readable :
    (k x : ℤ) (tm : TransactionManager) {tm' : TransactionManager}
    → change_site k (set_read_available x) tm ≡ ok (tt, tm')
    → (a b : ℤ)
    → readable a b tm'.site_manager ≡ (((a ==ℤ k) && (b ==ℤ x)) || readable a b tm.site_manager)
unfolding set_read_available is_read_available
change_site-readable k x tm {tm'} e a b =
    let (s, found, p) = change_site-eq-ok k (set_read_available x) tm e in
    let s' = set_read_available x s in
    ground (
      arith,
      p,
      find-insert_self k s' tm.site_manager,
      find-insert_ne a k s' tm.site_manager,
      find-insert_self x true s.read_available_map,
      find-insert_ne b x true s.read_available_map,
    )

change_site-writable :
    (k : ℤ) (tm : TransactionManager) {tm' : TransactionManager}
    → change_site k set_write_available tm ≡ ok (tt, tm')
    → (a b : ℤ) → readable a b tm'.site_manager ≡ readable a b tm.site_manager
unfolding set_write_available is_read_available
change_site-writable k tm {tm'} e a b =
    let (s, found, p) = change_site-eq-ok k set_write_available tm e in
    ground (
      arith,
      p,
      find-insert_self k (set_write_available s) tm.site_manager,
      find-insert_ne a k (set_write_available s) tm.site_manager,
    )

-- The variables that the recovery of a site makes readable, in the terms of the code.
recovers : ℤ → ℤ → Bool
recovers k b =
    is_odd (k +ℤ minus_one) && ((b ==ℤ (k +ℤ minus_one)) || (b ==ℤ ((k +ℤ minus_one) +ℤ pos 10)))

recovered_pair :
    (k x y : ℤ) (tm : TransactionManager) {tm' : TransactionManager}
    → (if is_odd x
          then change_site k (set_read_available x) >> change_site k (set_read_available y)
          else pure tt)
        tm
      ≡ ok (tt, tm')
    → (a b : ℤ)
    → readable a b tm'.site_manager
      ≡ (((a ==ℤ k) && (is_odd x && ((b ==ℤ x) || (b ==ℤ y)))) || readable a b tm.site_manager)
recovered_pair k x y tm {tm'} e a b = elim (Bool-cases (is_odd x)) [
  | inl odd ↦
      let (_, n, first, rest) =
        bind-eq-ok (change_site k (set_read_available x))
          (λ _. change_site k (set_read_available y)) tm (rw odd at e) in
      ground (arith, change_site-readable k x tm first a b, change_site-readable k y n rest a b)
  | inr even ↦ ground arith
]

exec_recovery-recovers :
    (k : ℤ) (tm : TransactionManager) {tm' : TransactionManager}
    → exec_recovery k tm ≡ ok (tt, tm')
    → (a b : ℤ)
    → readable a b tm'.site_manager ≡ (((a ==ℤ k) && recovers k b) || readable a b tm.site_manager)
unfolding exec_recovery recovers
exec_recovery-recovers k tm {tm'} e a b =
    let x = k +ℤ minus_one in
    let y = x +ℤ pos 10 in
    let last = remove_from_site_waiting_map k >> print (site_recovered k) in
    let both =
      if is_odd x
      then change_site k (set_read_available x) >> change_site k (set_read_available y)
      else pure tt in
    let (_, n, first, rest) =
      bind-eq-ok (change_site k set_write_available) (λ _. both >> last) tm e in
    let (_, o, second, third) = bind-eq-ok both (λ _. last) n rest in
    let same : tm'.site_manager ≡ o.site_manager = ground arith in
    ap (readable a b) same
    ∙ ground (arith, recovered_pair k x y n second a b, change_site-writable k tm first a b)

abbrev same : Bool → Bool → Bool
same true b = b
same false b = not b

same_eq : (a b : Bool) → same a b ≡ true → a ≡ b
same_eq a b h = ground arith

-- The odd variables whose only site is `k`.
abbrev pub lives_only_at : ℤ → ℤ → Bool
lives_only_at k b = is_odd b && (home_site b ==ℤ k)

abbrev agree : ℕ → ℕ → Bool
agree i j = same (recovers (pos (suc i)) (pos (suc j))) (lives_only_at (pos (suc i)) (pos (suc j)))

agree_table : tested (λ i. tested (agree i) 20) 10 ≡ true
unfolding tested recovers is_odd home_site ◌+ℤ◌ ℤ_discrete
agree_table = refl

recovers_lem :
    (i j : ℕ)
    → i < 10
    → j < 20
    → recovers (pos (suc i)) (pos (suc j)) ≡ lives_only_at (pos (suc i)) (pos (suc j))
recovers_lem i j hi hj =
    same_eq _ _
      (tested_lem (agree i) 20 j hj (tested_lem (λ k. tested (agree k) 20) 10 i hi agree_table))

-- The recovery of one of the ten sites, where it succeeds, makes readable, at this site, exactly
-- those of the twenty variables that have no other site; what could be read before can be read still.
pub exec_recovery-readable :
    (i j : ℕ) (tm : TransactionManager) {tm' : TransactionManager}
    → i < 10
    → j < 20
    → exec_recovery (pos (suc i)) tm ≡ ok (tt, tm')
    → (a : ℤ)
    → readable a (pos (suc j)) tm'.site_manager ≡ (
        ((a ==ℤ pos (suc i)) && lives_only_at (pos (suc i)) (pos (suc j)))
        || readable a (pos (suc j)) tm.site_manager)
exec_recovery-readable i j tm hi hj e a =
    exec_recovery-recovers (pos (suc i)) tm e a (pos (suc j))
    ∙ ap (λ r. ((a ==ℤ pos (suc i)) && r) || readable a (pos (suc j)) tm.site_manager)
        (recovers_lem i j hi hj)
