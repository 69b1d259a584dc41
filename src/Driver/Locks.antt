-- ===== src/Driver/Locks.antt =====
-- The locks in the states that the program reaches.
use rep_crec.Base.{
  ℕ, zero, suc, true, false, ◌≡◌, refl, ap, ◌∙◌, some, List, [], ◌∷◌, ℤ, ok, arith, find, mem,
  range, out_of_fuel, ℤ_discrete,
}
use rep_crec.Variable.{new_variable, has_shared_lock, has_exclusive_lock}
use rep_crec.Site.{new_site, new_variables}
use rep_crec.SiteManager.{new_sites, new_site_manager, site_ids}
use rep_crec.SiteManager.Placement.{new_site_variables}
use rep_crec.SiteManager.Copies.{copy}
use rep_crec.LockManager.{new_lock_manager}
use rep_crec.LockManager.Hold.{holds_copy, locked, present}
use rep_crec.Instruction.{Instruction}
use rep_crec.Instruction.Text.{Text, codes, starts_with}
use rep_crec.Instruction.Parse.{parse}
use rep_crec.TransactionManager.{
  TransactionManager, ◌>>◌, pure, lift, gets, initial, is_all_instructions_finished,
}
use rep_crec.TransactionManager.Instruct.{add_instruction, request_of}
use rep_crec.TransactionManager.Execute.{execute_instructions}
use rep_crec.TransactionManager.Triple.{
  Triple, Triple_bind, Triple_then, Triple_if, Triple_pure, Triple_lift, Triple_gets, Triple_modify,
  Triple_err,
}
use rep_crec.TransactionManager.Inv.{Inv}
use rep_crec.TransactionManager.Inv.Run.{execute_instructions-Inv}
use rep_crec.Driver.{tick, drain, instruct, run_line, run_lines, execute_advanced_database}

new_variables_free : (t x : ℤ) (ids : List ℤ) → holds_copy t (find x (new_variables ids)) ≡ false
unfolding new_variables new_variable has_shared_lock has_exclusive_lock
new_variables_free t x [] = refl
new_variables_free t x (k ∷ ids) = ground (arith, new_variables_free t x ids)

new_sites_free : (t a x : ℤ) (ids : List ℤ) → locked t a x (new_sites ids) ≡ false
unfolding new_sites
new_sites_free t a x [] = refl
new_sites_free t a x (k ∷ ids) = elim (ℤ_discrete a k) [
  | yes p ↦
      let q : copy a x (new_sites (k ∷ ids)) ≡ find x (new_site k).variables = ground arith in
      ap (holds_copy t) q
      ∙ ap (λ m. holds_copy t (find x m)) (new_site_variables k)
      ∙ new_variables_free t x (range 1 20)
  | no p ↦
      let q : copy a x (new_sites (k ∷ ids)) ≡ copy a x (new_sites ids) = ground arith in
      ap (holds_copy t) q ∙ new_sites_free t a x ids
]

new_sites_numbered :
    (a x : ℤ) (ids : List ℤ) → present a x (new_sites ids) ≡ true → mem a ids ≡ true
unfolding new_sites
new_sites_numbered a x [] h = cc
new_sites_numbered a x (k ∷ ids) h = ground (arith, new_sites_numbered a x ids)

pub initial-Inv : Inv initial
unfolding initial new_lock_manager new_site_manager
initial-Inv = record {
  sole = λ a b t u h k. absurd (let p = new_sites_free t a b site_ids in cc);
  listed = λ a b t h. absurd (let p = new_sites_free t a b site_ids in cc);
  placed = λ a b t h. absurd (let p = new_sites_free t a b site_ids in cc);
  numbered = λ a b h. new_sites_numbered a b site_ids h;
  live = λ t h. absurd cc;
  known = tt;
}

tick-Inv : Triple Inv tick Inv
unfolding tick
tick-Inv = Triple_modify (λ tm i. i)

drain-Inv : (fuel : ℕ) → Triple Inv (drain fuel) Inv
unfolding drain
drain-Inv zero = Triple_err out_of_fuel
drain-Inv (suc fuel) =
    Triple_bind (gets is_all_instructions_finished)
      {f = elim [ true ↦ pure tt | false ↦ do execute_instructions; tick; drain fuel ]}
      (Triple_gets is_all_instructions_finished)
      (elim [
        | true ↦ Triple_pure tt
        | false ↦
            Triple_then execute_instructions execute_instructions-Inv
              (Triple_then tick tick-Inv (drain-Inv fuel))
      ])

module _ (memory : Instruction) where
  instruct-Inv : (insr : Text) → Triple Inv (instruct memory insr) Inv
  unfolding instruct add_instruction
  instruct-Inv insr =
      Triple_bind (lift (parse memory.id memory insr)) (Triple_lift (parse memory.id memory insr))
        λ i.
          Triple_bind (gets (λ tm. tm.curr_timestamp)) (Triple_gets (λ tm. tm.curr_timestamp))
            λ now.
              Triple_bind (lift (request_of i now)) (Triple_lift (request_of i now))
                λ r. Triple_modify {f = λ tm. record tm { request = some r }} (λ tm j. j)

  run_line-Inv : (insr : Text) → Triple Inv (run_line memory insr) Inv
  unfolding run_line
  run_line-Inv insr = Triple_if (starts_with (codes "dump") insr) (Triple_pure tt) (
      Triple_then tick tick-Inv
        (Triple_then (instruct memory insr) (instruct-Inv insr) execute_instructions-Inv))

  run_lines_keeps : (lines : List Text) → Triple Inv (run_lines memory lines) Inv
  unfolding run_lines
  run_lines_keeps [] = Triple_pure tt
  run_lines_keeps (insr ∷ lines) =
      Triple_then (run_line memory insr) (run_line-Inv insr) (run_lines_keeps lines)

  -- After any lines of input the locks are consistent: no copy is locked by two transactions, each
  -- lock is in the lock table, an odd variable is locked at its home site only, and the lock table
  -- lists known transactions only.
  pub run_lines-Inv :
      (lines : List Text) {tm : TransactionManager}
      → run_lines memory lines initial ≡ ok (tt, tm)
      → Inv tm
  run_lines-Inv lines {tm} e = (run_lines_keeps lines).run initial tm tt e initial-Inv

  -- The same holds when the program has ended.
  pub execute_advanced_database-Inv :
      (fuel : ℕ) (lines : List Text) {tm : TransactionManager}
      → execute_advanced_database memory fuel lines initial ≡ ok (tt, tm)
      → Inv tm
  unfolding execute_advanced_database
  execute_advanced_database-Inv fuel lines {tm} e =
      (Triple_then (run_lines memory lines) (run_lines_keeps lines) (
          Triple_then (drain fuel) (drain-Inv fuel) (
            Triple_then (instruct memory (codes "dump()")) (instruct-Inv (codes "dump()"))
              (Triple_then tick tick-Inv execute_instructions-Inv)))).run
        initial tm tt e initial-Inv
