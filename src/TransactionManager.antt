-- ===== src/TransactionManager.antt =====
-- repcrec/transaction_manager: the singleton that all parts share, and its small operations. An
-- action takes the whole state and gives it back, or ends the program.

pub mod Abort
pub mod Triple
pub mod Inv
pub mod Deadlocks
pub mod Roll
pub mod Queue
pub mod Commit
pub mod Instruct
pub mod Execute
use rep_crec.Base.{
  sym, ◌∙◌, ◌≡◌, refl, inl, inr, Result-cases, Bool, true, false, Option, none, some, List, [], ◌∷◌,
  ℤ, pos, ◌==ℤ◌, ltb_ℤ, if◌then◌else◌, Result, ok, err, or_fail, out_of_range, null_pointer, Map,
  find, find_or, insert, erase, contains,
}
use rep_crec.SiteManager.{SiteManager, new_site_manager}
use rep_crec.LockManager.{LockManager, new_lock_manager}
use rep_crec.LockManager.Release.{release_locks}
use rep_crec.Transaction.{Transaction}
use rep_crec.Request.{Request, Message, aborted}

-- `transactions_set_`: of each transaction the time and the id, the youngest first.
abbrev pub AgeSet : Type 0
AgeSet = List (ℤ × ℤ)

pub record TransactionManager : Type 0 where
  pub curr_timestamp : ℤ
  pub request : Option Request
  pub lock_manager : LockManager
  pub site_manager : SiteManager
  pub transactions_set : AgeSet
  pub site_waiting_map : Map ℤ
  pub transactions : Map Transaction
  pub blocked_transactions_queue : Map (List Request)
  -- What was printed, the latest first, each with the time that it shows.
  pub log : List (ℤ × Message)

unfoldable pub initial : TransactionManager
unfolding new_lock_manager new_site_manager
initial = record {
  curr_timestamp = pos 10000;
  request = none;
  lock_manager = new_lock_manager;
  site_manager = new_site_manager;
  transactions_set = [];
  site_waiting_map = [];
  transactions = [];
  blocked_transactions_queue = [];
  log = [];
}

abbrev pub Action : Type 0 → Type 0
Action A = TransactionManager → Result (A × TransactionManager)

abbrev pub Done : Type 0
Done = Unit {0}

infixl 5 ◌>>=◌ ◌>>◌
abbrev pub ◌>>=◌ : {A B : Type 0} → Action A → (A → Action B) → Action B
◌>>=◌ m f tm = elim (m tm) [ ok (a, tm') ↦ f a tm' | err e ↦ err e ]

abbrev pub ◌>>◌ : {A B : Type 0} → Action A → Action B → Action B
m >> k = m >>= λ _. k

abbrev pub pure : {A : Type 0} → A → Action A
pure a tm = ok (a, tm)

abbrev pub lift : {A : Type 0} → Result A → Action A
lift (ok a) tm = ok (a, tm)
lift (err e) tm = err e

abbrev pub gets : {A : Type 0} → (TransactionManager → A) → Action A
gets f tm = ok (f tm, tm)

abbrev pub modify : (TransactionManager → TransactionManager) → Action Done
modify f tm = ok (tt, f tm)

-- A read that may end the program.
abbrev pub asks : {A : Type 0} → (TransactionManager → Result A) → Action A
asks f tm = lift (f tm) tm

-- A sequence that succeeds has parts that succeed.
pub bind-eq-ok :
    {A B : Type 0} (m : Action A) (f : A → Action B) (tm : TransactionManager)
    {r : B × TransactionManager}
    → (m >>= f) tm ≡ ok r
    → (a : A) × (n : TransactionManager) × (m tm ≡ ok (a, n)) × (f a n ≡ ok r)
bind-eq-ok m f tm {r} e = elim (Result-cases (m tm)) [
  | inl ((a, n), first) ↦
      (a, n, first, (let h : (m >>= f) tm ≡ f a n = rw (first, ◌>>=◌) refl in sym h ∙ e))
  | inr (x, first) ↦ absurd (let h : (m >>= f) tm ≡ err x = rw (first, ◌>>=◌) refl in cc)
]

-- `printf`, with the current time
unfoldable pub print : Message → Action Done
print m = modify λ tm. record tm { log = (tm.curr_timestamp, m) ∷ tm.log }

-- `transactions_set_.insert`: an equal time counts as the same transaction.
unfoldable pub insert_age : ℤ → ℤ → AgeSet → AgeSet
insert_age time id [] = (time, id) ∷ []
insert_age time id ((t, i) ∷ s) =
    if time ==ℤ t
    then (t, i) ∷ s
    else if ltb_ℤ t time
    then (time, id) ∷ (t, i) ∷ s
    else (t, i) ∷ insert_age time id s

unfoldable pub erase_age : ℤ → AgeSet → AgeSet
erase_age time [] = []
erase_age time ((t, i) ∷ s) = if time ==ℤ t then s else (t, i) ∷ erase_age time s

unfoldable pub add_transaction : ℤ → Transaction → Action Done
unfolding insert_age
add_transaction tran_id t = modify λ tm. record tm {
  transactions = insert tran_id t tm.transactions;
  transactions_set = insert_age t.timestamp t.transaction_id tm.transactions_set;
}

-- The set orders the requests of a transaction by time, and one of an equal time is not inserted.
unfoldable pub insert_request : Request → List Request → List Request
insert_request r [] = r ∷ []
insert_request r (q ∷ qs) =
    if r.timestamp ==ℤ q.timestamp
    then q ∷ qs
    else if ltb_ℤ r.timestamp q.timestamp
    then r ∷ q ∷ qs
    else q ∷ insert_request r qs

unfoldable pub add_request_to_blocked_queue : Request → Action Done
unfolding insert_request
add_request_to_blocked_queue r = modify λ tm. record tm {
  blocked_transactions_queue =
      insert r.tran_id (insert_request r (find_or [] r.tran_id tm.blocked_transactions_queue))
        tm.blocked_transactions_queue;
}

-- `transactions_.at(tran_id)`
unfoldable pub lookup_transaction : ℤ → TransactionManager → Result Transaction
lookup_transaction tran_id tm = or_fail (find tran_id tm.transactions) out_of_range

unfoldable pub get_transaction : ℤ → Action Transaction
unfolding lookup_transaction
get_transaction tran_id = asks (lookup_transaction tran_id)

-- A change of the object behind `get_transaction(tran_id)`.
unfoldable pub on_transaction : ℤ → (Transaction → Transaction) → Action Done
unfolding get_transaction
on_transaction tran_id f = get_transaction tran_id >>= λ t.
    modify λ tm. record tm { transactions = insert tran_id (f t) tm.transactions }

-- `transactions_set_.erase(transactions_[tran_id])`: a null pointer is followed to compare times,
-- unless the set is empty.
unfoldable pub erase_from_set : Option Transaction → AgeSet → Result AgeSet
unfolding erase_age
erase_from_set (some t) s = ok (erase_age t.timestamp s)
erase_from_set none [] = ok []
erase_from_set none (x ∷ s) = err null_pointer

unfoldable pub evict_transaction : ℤ → Action Done
unfolding erase_from_set
evict_transaction tran_id =
    asks (λ tm. erase_from_set (find tran_id tm.transactions) tm.transactions_set) >>= λ s.
    modify λ tm. record tm { transactions_set = s; transactions = erase tran_id tm.transactions }

unfoldable pub release : ℤ → Action Done
unfolding release_locks
release tran_id = asks (λ tm. release_locks tran_id (tm.lock_manager, tm.site_manager)) >>= λ ls.
    modify λ tm. record tm { lock_manager = ls.0; site_manager = ls.1 }

unfoldable pub drop_blocked : ℤ → Action Done
drop_blocked tran_id =
    modify
      λ tm. record tm { blocked_transactions_queue = erase tran_id tm.blocked_transactions_queue }

unfoldable pub abort_transaction : ℤ → Action Done
unfolding evict_transaction drop_blocked release print
abort_transaction tran_id = do
  evict_transaction tran_id
  drop_blocked tran_id
  release tran_id
  print (aborted tran_id)

unfoldable pub add_to_site_waiting_map : ℤ → ℤ → Action Done
add_to_site_waiting_map tran_id site_id =
    modify λ tm. record tm { site_waiting_map = insert tran_id site_id tm.site_waiting_map }

-- The entries of other sites.
unfoldable pub without_site : ℤ → Map ℤ → Map ℤ
without_site site_id [] = []
without_site site_id ((tid, sid) ∷ m) =
    let rest = without_site site_id m in if sid ==ℤ site_id then rest else (tid, sid) ∷ rest

unfoldable pub remove_from_site_waiting_map : ℤ → Action Done
unfolding without_site
remove_from_site_waiting_map site_id =
    modify λ tm. record tm { site_waiting_map = without_site site_id tm.site_waiting_map }

unfoldable pub is_transaction_waiting_for_site : ℤ → TransactionManager → Bool
is_transaction_waiting_for_site tran_id tm = contains tran_id tm.site_waiting_map

unfoldable pub is_all_instructions_finished : TransactionManager → Bool
is_all_instructions_finished tm = elim tm.request [
  | some r ↦ false
  | none ↦ elim tm.blocked_transactions_queue [ [] ↦ true | q ∷ qs ↦ false ]
]
