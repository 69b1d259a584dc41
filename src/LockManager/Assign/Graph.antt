-- ===== src/LockManager/Assign/Graph.antt =====
-- The assignment of locks leaves the wait-for graph alone.
use rep_crec.Base.{
  Bool-cases, ◌≡◌, ◌∙◌, inl, inr, [], ◌∷◌, ℤ, Set, Map, find, arith, ok, err, Option-cases,
  out_of_range, null_pointer, >>=-eq-ok,
}
use rep_crec.Site.{deref_variable, is_write_available, is_read_available, get_variable}
use rep_crec.SiteManager.{get_site}
use rep_crec.Transaction.{Transaction}
use rep_crec.LockManager.Assign.{
  Locks, write_lock_at, share_lock_at, assign_write_lock, assign_share_lock, note_lock,
}

write_lock_at-graph :
    (transactions : Map Transaction) (t x sid : ℤ) (ls ls' : Locks)
    → write_lock_at transactions t x sid ls ≡ ok ls'
    → ls'.0.wait_for_graph ≡ ls.0.wait_for_graph
unfolding write_lock_at note_lock get_site deref_variable
write_lock_at-graph transactions t x sid (l, sites) ls' e = elim (Option-cases (find sid sites)) [
  | inl n ↦ absurd (
      let k : write_lock_at transactions t x sid (l, sites) ≡ err null_pointer = ground arith in cc)
  | inr (s, found) ↦ elim (Bool-cases (is_write_available s)) [
    | inr down ↦ ground arith
    | inl up ↦ elim (Option-cases (get_variable x s)) [
      | inl n ↦ absurd (
          let k : write_lock_at transactions t x sid (l, sites) ≡ err null_pointer = ground arith in
          cc)
      | inr (v, at) ↦ elim (Option-cases (find t transactions)) [
        | inl n ↦ absurd (
            let k : write_lock_at transactions t x sid (l, sites) ≡ err out_of_range =
              ground arith in
            cc)
        | inr (tran, here) ↦ ground arith
      ]
    ]
  ]
]

share_lock_at-graph :
    (transactions : Map Transaction) (t x sid : ℤ) (ls ls' : Locks)
    → share_lock_at transactions t x sid ls ≡ ok ls'
    → ls'.0.wait_for_graph ≡ ls.0.wait_for_graph
unfolding share_lock_at note_lock get_site deref_variable
share_lock_at-graph transactions t x sid (l, sites) ls' e = elim (Option-cases (find sid sites)) [
  | inl n ↦ absurd (
      let k : share_lock_at transactions t x sid (l, sites) ≡ err null_pointer = ground arith in cc)
  | inr (s, found) ↦ elim (Bool-cases (is_read_available x s)) [
    | inr down ↦ ground arith
    | inl up ↦ elim (Option-cases (get_variable x s)) [
      | inl n ↦ absurd (
          let k : share_lock_at transactions t x sid (l, sites) ≡ err null_pointer = ground arith in
          cc)
      | inr (v, at) ↦ elim (Option-cases (find t transactions)) [
        | inl n ↦ absurd (
            let k : share_lock_at transactions t x sid (l, sites) ≡ err out_of_range =
              ground arith in
            cc)
        | inr (tran, here) ↦ ground arith
      ]
    ]
  ]
]

pub assign_write_lock-graph :
    (transactions : Map Transaction) (t x : ℤ) (sids : Set) (ls ls' : Locks)
    → assign_write_lock transactions t sids x ls ≡ ok ls'
    → ls'.0.wait_for_graph ≡ ls.0.wait_for_graph
unfolding assign_write_lock
assign_write_lock-graph transactions t x [] ls ls' e = ground arith
assign_write_lock-graph transactions t x (sid ∷ sids) ls ls' e =
    let (n, first, rest) =
      >>=-eq-ok (write_lock_at transactions t x sid ls) (assign_write_lock transactions t sids x)
        e in
    assign_write_lock-graph transactions t x sids n ls' rest
    ∙ write_lock_at-graph transactions t x sid ls n first

pub assign_share_lock-graph :
    (transactions : Map Transaction) (t x : ℤ) (sids : Set) (ls ls' : Locks)
    → assign_share_lock transactions t sids x ls ≡ ok ls'
    → ls'.0.wait_for_graph ≡ ls.0.wait_for_graph
unfolding assign_share_lock
assign_share_lock-graph transactions t x [] ls ls' e = ground arith
assign_share_lock-graph transactions t x (sid ∷ sids) ls ls' e =
    let (n, first, rest) =
      >>=-eq-ok (share_lock_at transactions t x sid ls) (assign_share_lock transactions t sids x)
        e in
    assign_share_lock-graph transactions t x sids n ls' rest
    ∙ share_lock_at-graph transactions t x sid ls n first
