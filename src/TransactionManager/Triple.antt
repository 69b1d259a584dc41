-- ===== src/TransactionManager/Triple.antt =====
-- Actions that take one property of the state to another when they succeed.
use rep_crec.Base.{
  Bool, true, false, ◌≡◌, subst, inl, inr, Result, ok, err, Error, Result-cases, if◌then◌else◌,
  arith,
}
use rep_crec.TransactionManager.{
  TransactionManager, Action, ◌>>=◌, ◌>>◌, pure, lift, gets, asks, modify, bind-eq-ok,
}

abbrev pub Predicate : Type 1
Predicate = TransactionManager → Type 0

pub record Triple {A : Type 0} (P : Predicate) (m : Action A) (Q : Predicate) : Type 0 where
  pub run : (tm tm' : TransactionManager) (a : A) → m tm ≡ ok (a, tm') → P tm → Q tm'

module _ {P Q R : Predicate} where
  pub Triple_bind :
      {A B : Type 0} (m : Action A) {f : A → Action B}
      → Triple P m Q
      → ((a : A) → Triple Q (f a) R)
      → Triple P (m >>= f) R
  Triple_bind m {f} h k = record {
    run = λ tm tm' b e p.
        let (a, n, first, rest) = bind-eq-ok m f tm e in
        (k a).run n tm' b rest (h.run tm n a first p);
  }

  pub Triple_then :
      {A B : Type 0} (m : Action A) {k : Action B}
      → Triple P m Q
      → Triple Q k R
      → Triple P (m >> k) R
  Triple_then m {k} h j = Triple_bind m {f = λ _. k} h (λ _. j)

module _ {P Q : Predicate} where
  pub Triple_if :
      {A : Type 0} (c : Bool) {m n : Action A}
      → Triple P m Q
      → Triple P n Q
      → Triple P (if c then m else n) Q
  Triple_if true h k = h
  Triple_if false h k = k

  pub Triple_err : {A : Type 0} (e : Error) → Triple P (lift {A = A} (err e)) Q
  Triple_err e = record { run = λ tm tm' a h p. absurd cc }

  pub Triple_modify :
      {f : TransactionManager → TransactionManager}
      → ((tm : TransactionManager) → P tm → Q (f tm))
      → Triple P (modify f) Q
  Triple_modify {f} h = record {
    run = λ tm tm' a e p. let q : f tm ≡ tm' = cc in subst Q q (h tm p);
  }

module _ {P : Predicate} {A : Type 0} where
  pub Triple_pure : (a : A) → Triple P (pure a) P
  Triple_pure a = record { run = λ tm tm' b e p. let q : tm ≡ tm' = cc in subst P q p }

  pub Triple_gets : (f : TransactionManager → A) → Triple P (gets f) P
  Triple_gets f = record { run = λ tm tm' b e p. let q : tm ≡ tm' = cc in subst P q p }

  pub Triple_lift : (r : Result A) → Triple P (lift r) P
  Triple_lift (ok x) = record { run = λ tm tm' b e p. let q : tm ≡ tm' = cc in subst P q p }
  Triple_lift (err x) = record { run = λ tm tm' b e p. absurd cc }

  -- What an action that only reads leaves, and what it reads.
  pub Triple_asks : (f : TransactionManager → Result A) → Triple P (asks f) P
  Triple_asks f = record {
    run = λ tm tm' a h p. elim (Result-cases (f tm)) [
      | inl (x, e) ↦ let q : tm ≡ tm' = ground arith in subst P q p
      | inr (x, e) ↦ absurd (let k : asks f tm ≡ err x = ground arith in cc)
    ];
  }

module _ {P R : Predicate} where
  -- What an action that only reads has read may be used for the rest.
  pub Triple_bind_asks :
      {A B : Type 0} (f : TransactionManager → Result A) {k : A → Action B}
      → ((a : A) → Triple (λ tm. P tm × (f tm ≡ ok a)) (k a) R)
      → Triple P (asks f >>= k) R
  Triple_bind_asks f {k} h = record {
    run = λ tm tm' b e p. elim (Result-cases (f tm)) [
      | inl (x, r) ↦ (h x).run tm tm' b (ground arith) (p, r)
      | inr (x, r) ↦ absurd (let q : (asks f >>= k) tm ≡ err x = ground arith in cc)
    ];
  }

  pub Triple_weaken :
      {Q : Predicate} {A : Type 0} {m : Action A}
      → ((tm : TransactionManager) → P tm → Q tm)
      → Triple Q m R
      → Triple P m R
  Triple_weaken w h = record { run = λ tm tm' a e p. h.run tm tm' a e (w tm p) }
