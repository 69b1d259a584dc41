-- ===== src/Request/Read/Only.antt =====
-- What a read-only transaction reads of an even variable.
use rep_crec.Base.{
  Bool, true, false, ◌≡◌, ◌∙◌, inl, inr, ◌⊎◌, some, [], ◌∷◌, List, ℤ, find, insert, mem, arith, ok,
  err, null_pointer, Option-cases, Bool-cases, Result-cases, ℤ_discrete,
}
use rep_crec.Global.{is_odd}
use rep_crec.Variable.{get_value}
use rep_crec.Site.{deref_variable, get_variable}
use rep_crec.SiteManager.{get_site, deref_copy, site_ids}
use rep_crec.SiteManager.Copies.{copy}
use rep_crec.Transaction.{Transaction, add_read_history}
use rep_crec.Request.{reads_only}
use rep_crec.Request.Read.{
  ask_readable, ask_value, read_only_anywhere, handle_read_only_request, exec_read,
}
use rep_crec.TransactionManager.{
  TransactionManager, Action, Done, ◌>>=◌, ◌>>◌, print, on_transaction, get_transaction,
  lookup_transaction, abort_transaction, bind-eq-ok,
}
use rep_crec.TransactionManager.Commit.Install.{readable}
use rep_crec.TransactionManager.Commit.Snapshot.{read_as_of}

-- The state after a value was read at a site.
abbrev pub has_read : ℤ → ℤ → ℤ → ℤ → Transaction → TransactionManager → TransactionManager
has_read t x k v tran tm = record tm {
  log = (tm.curr_timestamp, reads_only t x v) ∷ tm.log;
  transactions = insert t (add_read_history k x v tran) tm.transactions;
}

ask_readable-eq-ok :
    (k x : ℤ) (tm n : TransactionManager) (b : Bool)
    → ask_readable k x tm ≡ ok (b, n)
    → (n ≡ tm) × (readable k x tm.site_manager ≡ b)
unfolding ask_readable get_site
ask_readable-eq-ok k x tm n b e = elim (Option-cases (find k tm.site_manager)) [
  | inl p ↦ absurd (let h : ask_readable k x tm ≡ err null_pointer = ground arith in cc)
  | inr (s, p) ↦ (ground arith, ground arith)
]

ask_value-eq-ok :
    (k x time v : ℤ) (tm n : TransactionManager)
    → ask_value k x time tm ≡ ok (v, n)
    → (n ≡ tm) × (read_as_of time (copy k x tm.site_manager) ≡ ok v)
unfolding ask_value deref_copy get_site deref_variable get_variable
ask_value-eq-ok k x time v tm n e = elim (Option-cases (find k tm.site_manager)) [
  | inl p ↦ absurd (let h : ask_value k x time tm ≡ err null_pointer = ground arith in cc)
  | inr (s, p) ↦ elim (Option-cases (find x s.variables)) [
    | inl q ↦ absurd (let h : ask_value k x time tm ≡ err null_pointer = ground arith in cc)
    | inr (w, q) ↦ elim (Result-cases (get_value time w)) [
      | inl (y, r) ↦ (ground arith, ground arith)
      | inr (y, r) ↦ absurd (let h : ask_value k x time tm ≡ err y = ground arith in cc)
    ]
  ]
]

-- One readable site served, or there is none and the transaction is aborted.
abbrev pub ReadOnly :
    ℤ → ℤ → List ℤ → Transaction → TransactionManager → TransactionManager → Type 0
ReadOnly t x sids tran tm tm' =
    ((k : ℤ) × (v : ℤ) × (mem k sids ≡ true)
      × (readable k x tm.site_manager ≡ true)
      × (read_as_of tran.timestamp (copy k x tm.site_manager) ≡ ok v)
      × (tm' ≡ has_read t x k v tran tm))
    ⊎ (((k : ℤ) → mem k sids ≡ true → readable k x tm.site_manager ≡ false)
        × (abort_transaction t tm ≡ ok (tt, tm')))

read_only_anywhere-ReadOnly :
    (t x : ℤ) (sids : List ℤ) (tran : Transaction) (tm tm' : TransactionManager)
    → find t tm.transactions ≡ some tran
    → read_only_anywhere t x tran.timestamp sids tm ≡ ok (tt, tm')
    → ReadOnly t x sids tran tm tm'
unfolding read_only_anywhere print on_transaction get_transaction lookup_transaction
read_only_anywhere-ReadOnly t x [] tran tm tm' known e = inr (λ k m. absurd cc, e)
read_only_anywhere-ReadOnly t x (k ∷ ks) tran tm tm' known e =
    let rest = λ (b : Bool). elim b as (λ _. Action Done) [
      | true ↦ ask_value k x tran.timestamp >>= λ v.
          print (reads_only t x v) >> on_transaction t (add_read_history k x v)
      | false ↦ read_only_anywhere t x tran.timestamp ks
    ] in
    let (b, n, first, e1) = bind-eq-ok (ask_readable k x) rest tm e in
    let (p, r) = ask_readable-eq-ok k x tm n b first in
    elim (Bool-cases b) [
      | inl yes_b ↦
          let e2 : (ask_value k x tran.timestamp >>= λ v.
          print (reads_only t x v) >> on_transaction t (add_read_history k x v))
                tm
              ≡ ok (tt, tm') =
            ground arith in
          let (v, o, second, e3) =
            bind-eq-ok (ask_value k x tran.timestamp)
              (λ v. print (reads_only t x v) >> on_transaction t (add_read_history k x v)) tm e2 in
          let (q, w) = ask_value-eq-ok k x tran.timestamp v tm o second in
          inl (k, v, ground arith, r ∙ yes_b, w, ground arith)
      | inr no_b ↦
          let e2 : read_only_anywhere t x tran.timestamp ks tm ≡ ok (tt, tm') = ground arith in
          elim (read_only_anywhere-ReadOnly t x ks tran tm tm' known e2) [
            | inl (j, v, m, s, w, z) ↦ inl (j, v, ground arith, s, w, z)
            | inr (none_r, ab) ↦ inr (
              λ j m. elim (ℤ_discrete j k) [
                | yes z ↦ rw z (r ∙ no_b)
                | no z ↦ none_r j (ground arith)
              ],
              ab,
            )
          ]
    ]

-- A read-only transaction that reads an even variable, where the request succeeds: a site at which
-- the variable can be read serves with the value as of the begin of the transaction, which is
-- printed and noted, and no lock, no copy and no other transaction changes; or the variable can be
-- read at no site, and the transaction is aborted.
pub exec_read_only_even :
    (timestamp t x : ℤ) (tran : Transaction) (tm : TransactionManager) {tm' : TransactionManager}
    → find t tm.transactions ≡ some tran
    → tran.is_read_only ≡ true
    → is_odd x ≡ false
    → exec_read timestamp t x tm ≡ ok (tt, tm')
    → ReadOnly t x site_ids tran tm tm'
unfolding exec_read handle_read_only_request get_transaction lookup_transaction
exec_read_only_even timestamp t x tran tm {tm'} known ro even e =
    read_only_anywhere-ReadOnly t x site_ids tran tm tm' known (ground arith)
