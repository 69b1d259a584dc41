-- ===== src/Request/Exec/Down.antt =====
-- Which sites are up, and what can be read, after the failure of a site and after its recovery.
use rep_crec.Base.{
  tested, tested_lem, ◌+ℤ◌, ℕ, suc, ◌<◌, Bool, true, false, ◌≡◌, ◌≢◌, refl, sym, ap, ◌∙◌, inl, inr,
  Option, none, some, List, [], ◌∷◌, ℤ, pos, Set, Map, mem, find, insert, find-insert_self,
  find-insert_ne, range, ok, arith, Option-cases, if◌then◌else◌, ℤ_discrete,
}
use rep_crec.Global.{var_count}
use rep_crec.Site.{set_unavailable, set_all, is_read_available}
use rep_crec.SiteManager.{SiteManager}
use rep_crec.LockManager.Release.Sites.{
  availability, writable, writes_in, release_locks-availability,
}
use rep_crec.Request.{site_failed}
use rep_crec.Request.Exec.{exec_fail, exec_recovery, change_site, abort_all, writers}
use rep_crec.Request.Exec.Recover.{change_site-eq-ok, exec_recovery-readable, lives_only_at}
use rep_crec.TransactionManager.{TransactionManager, ◌>>◌, bind-eq-ok, abort_transaction, print}
use rep_crec.TransactionManager.Abort.{abort_transaction-eq-ok}
use rep_crec.TransactionManager.Commit.Install.{readable}

abbrev reads_in : ℤ → Option (Bool × Map Bool) → Bool
reads_in b none = false
reads_in b (some (up, m)) = elim (find b m) [ none ↦ false | some r ↦ r ]

readable-availability :
    (a b : ℤ) (sites : SiteManager) → readable a b sites ≡ reads_in b (availability a sites)
unfolding is_read_available
readable-availability a b sites = elim (Option-cases (find a sites)) [
  | inl n ↦ ground arith
  | inr (s, found) ↦ elim (Option-cases (find b s.read_available_map)) [
    | inl n ↦ ground arith
    | inr (r, at) ↦ ground arith
  ]
]

abort_all-availability :
    (a : ℤ) (tids : Set) (tm : TransactionManager) {tm' : TransactionManager}
    → abort_all tids tm ≡ ok (tt, tm')
    → availability a tm'.site_manager ≡ availability a tm.site_manager
unfolding abort_all
abort_all-availability a [] tm {tm'} e =
    ap (λ x. availability a x.site_manager) (let p : tm' ≡ tm = cc in p)
abort_all-availability a (t ∷ tids) tm {tm'} e =
    let (_, n, first, rest) = bind-eq-ok (abort_transaction t) (λ _. abort_all tids) tm e in
    let (s, l, sites, _, r, p) = abort_transaction-eq-ok t tm first in
    abort_all-availability a tids n rest
    ∙ ap (λ x. availability a x.site_manager) p
    ∙ release_locks-availability a t tm.lock_manager tm.site_manager r

find-set_all :
    (x : ℤ) (b : Bool) (vs : List ℤ) (m : Map Bool)
    → find x (set_all b vs m) ≡ (if mem x vs then some b else find x m)
unfolding set_all
find-set_all x b [] m = refl
find-set_all x b (v ∷ vs) m =
    find-set_all x b vs (insert v b m)
    ∙ ground (arith, find-insert_self v b m, find-insert_ne x v b m)

-- The site after it was set unavailable.
change_site-down :
    (k : ℤ) (tm : TransactionManager) {tm' : TransactionManager}
    → change_site k set_unavailable tm ≡ ok (tt, tm')
    → (writable k tm'.site_manager ≡ false)
      × ((b : ℤ) → mem b (range 1 var_count) ≡ true → readable k b tm'.site_manager ≡ false)
      × ((a : ℤ) → a ≢ k → availability a tm'.site_manager ≡ availability a tm.site_manager)
unfolding set_unavailable is_read_available
change_site-down k tm {tm'} e =
    let (s, found, p) = change_site-eq-ok k set_unavailable tm e in
    let s' = set_unavailable s in
    (
      ground (arith, p, find-insert_self k s' tm.site_manager),
      λ b h. ground (
        arith,
        p,
        find-insert_self k s' tm.site_manager,
        find-set_all b false (range 1 var_count) s.read_available_map,
      ),
      λ a n. ground (arith, p, find-insert_ne a k s' tm.site_manager),
    )

-- After a site has failed, where the request succeeds, the site is not up and none of the twenty
-- variables can be read there; at every other site nothing of this has changed.
pub exec_fail-availability :
    (k : ℤ) (tm : TransactionManager) {tm' : TransactionManager}
    → exec_fail k tm ≡ ok (tt, tm')
    → (writable k tm'.site_manager ≡ false)
      × ((b : ℤ) → mem b (range 1 var_count) ≡ true → readable k b tm'.site_manager ≡ false)
      × ((a : ℤ) → a ≢ k → availability a tm'.site_manager ≡ availability a tm.site_manager)
unfolding exec_fail print
exec_fail-availability k tm {tm'} e =
    let tids = writers k tm.transactions [] in
    let last = print (site_failed k) in
    let (_, n, first, rest) =
      bind-eq-ok (change_site k set_unavailable) (λ _. abort_all tids >> last) tm e in
    let (_, o, second, third) = bind-eq-ok (abort_all tids) (λ _. last) n rest in
    let same : tm'.site_manager ≡ o.site_manager = ground arith in
    let kept = λ (a : ℤ). ap (availability a) same ∙ abort_all-availability a tids n second in
    let (down, unreadable, others) = change_site-down k tm first in
    (
      ap writes_in (kept k) ∙ down,
      λ b h.
          readable-availability k b tm'.site_manager
          ∙ ap (reads_in b) (kept k)
          ∙ sym (readable-availability k b n.site_manager)
          ∙ unreadable b h,
      λ a h. kept a ∙ others a h,
    )

numbers_table : tested (λ j. mem (pos (suc j)) (range 1 var_count)) 20 ≡ true
unfolding tested range ◌+ℤ◌ ℤ_discrete
numbers_table = refl

numbered : (j : ℕ) → j < 20 → mem (pos (suc j)) (range 1 var_count) ≡ true
numbered j h = tested_lem (λ j. mem (pos (suc j)) (range 1 var_count)) 20 j h numbers_table

-- When one of the ten sites has failed and recovered, both with success and with nothing in between,
-- then of the twenty variables exactly those that have no other site can be read there: a replicated
-- variable cannot be read at this site until it is written again.
pub exec_fail-exec_recovery :
    (i j : ℕ) (tm : TransactionManager) {tm' tm'' : TransactionManager}
    → i < 10
    → j < 20
    → exec_fail (pos (suc i)) tm ≡ ok (tt, tm')
    → exec_recovery (pos (suc i)) tm' ≡ ok (tt, tm'')
    → readable (pos (suc i)) (pos (suc j)) tm''.site_manager
      ≡ lives_only_at (pos (suc i)) (pos (suc j))
exec_fail-exec_recovery i j tm {tm'} {tm''} hi hj e r =
    let unreadable = (exec_fail-availability (pos (suc i)) tm e).1 (pos (suc j)) (numbered j hj) in
    exec_recovery-readable i j tm' hi hj r (pos (suc i)) ∙ ground (arith, unreadable)
