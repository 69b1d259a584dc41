-- ===== src/Request/Exec/Fail.antt =====
-- The failure of a site: `FailRequest::exec`.
use rep_crec.Base.{
  Bool, false, ◌≡◌, refl, ◌∙◌, ap, Option, none, some, [], ◌∷◌, ℤ, Map, find, erase, IsMap, Set,
  mem, add, mem-add, find-erase_self, find-erase_ne, arith, if◌then◌else◌, ok, ◌||◌,
}
use rep_crec.Transaction.{Transaction, is_written_into_site}
use rep_crec.Site
use rep_crec.Request.Exec.{writers, abort_all, exec_fail, change_site}
use rep_crec.Request.{site_failed}
use rep_crec.TransactionManager.{◌>>◌, bind-eq-ok, TransactionManager, abort_transaction, print}
use rep_crec.TransactionManager.Abort.{abort_transaction-eq-ok}

-- Whether the transaction with the id wrote at the site.
abbrev pub wrote : ℤ → Option Transaction → Bool
wrote site_id none = false
wrote site_id (some t) = is_written_into_site site_id t

mem-writers :
    (site_id u : ℤ) (ts : Map Transaction) (tids : Set)
    → IsMap ts
    → mem u (writers site_id ts tids) ≡ (wrote site_id (find u ts) || mem u tids)
unfolding writers
mem-writers site_id u [] tids d = refl
mem-writers site_id u ((k, t) ∷ ts) tids d = ground (
  arith,
  mem-writers site_id u ts (if is_written_into_site site_id t then add k tids else tids) d.1,
  mem-add u k tids,
)

find-abort_all :
    (u : ℤ) (tids : Set) (tm : TransactionManager) {tm' : TransactionManager}
    → abort_all tids tm ≡ ok (tt, tm')
    → find u tm'.transactions ≡ (if mem u tids then none else find u tm.transactions)
unfolding abort_all
find-abort_all u [] tm {tm'} e = let p : tm ≡ tm' = ground arith in rw (← p) refl
find-abort_all u (t ∷ tids) tm {tm'} e =
    let (_, n, first, rest) = bind-eq-ok (abort_transaction t) (λ _. abort_all tids) tm e in
    let (s, l, sites, _, _, p) = abort_transaction-eq-ok t tm first in
    let q : n.transactions ≡ erase t tm.transactions = ap (λ x. x.transactions) p in
    find-abort_all u tids n rest
    ∙ ground (arith, q, find-erase_self t tm.transactions, find-erase_ne u t tm.transactions)

change_site-transactions :
    (site_id : ℤ) (f : Site.Site → Site.Site) (tm : TransactionManager) {tm' : TransactionManager}
    → change_site site_id f tm ≡ ok (tt, tm')
    → tm'.transactions ≡ tm.transactions
unfolding change_site
change_site-transactions site_id f tm {tm'} e = ground arith

-- When a site fails and the request succeeds, exactly the transactions that wrote at it are gone, and
-- all others stay as they were, given that no transaction is listed twice.
pub exec_fail-transactions :
    (site_id u : ℤ) (tm : TransactionManager) {tm' : TransactionManager}
    → IsMap tm.transactions
    → exec_fail site_id tm ≡ ok (tt, tm')
    → find u tm'.transactions
      ≡ (if wrote site_id (find u tm.transactions) then none else find u tm.transactions)
unfolding exec_fail print
exec_fail-transactions site_id u tm {tm'} d e =
    let tids = writers site_id tm.transactions [] in
    let (_, n, first, rest) =
      bind-eq-ok (change_site site_id Site.set_unavailable)
        (λ _. abort_all tids >> print (site_failed site_id)) tm e in
    let (_, o, second, last) =
      bind-eq-ok (abort_all tids) (λ _. print (site_failed site_id)) n rest in
    let kept : n.transactions ≡ tm.transactions = change_site-transactions site_id _ tm first in
    let same : tm'.transactions ≡ o.transactions = ground arith in
    ap (find u) same
    ∙ find-abort_all u tids n second
    ∙ ground (arith, kept, mem-writers site_id u tm.transactions [] d)
