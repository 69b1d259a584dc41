-- ===== src/TransactionManager/Roll/Evict.antt =====
-- A transaction that is evicted leaves the set by age as well as the map.
use rep_crec.Base.{
  true, false, ◌≡◌, ◌≢◌, refl, sym, subst, ap, ◌∙◌, inl, inr, ◌⊎◌, some, [], ◌∷◌, ℤ, ◌<ℤ◌, Map, Set,
  mem, find, erase, contains, find-erase_self, find-erase_ne, arith, ok, ℤ_discrete, Option-cases,
}
use rep_crec.LockManager.{is_waiting}
use rep_crec.SiteManager.{SiteManager}
use rep_crec.Transaction.{Transaction}
use rep_crec.TransactionManager.{AgeSet, erase_age, erase_from_set}
use rep_crec.TransactionManager.Deadlocks.{Aged, Before, Descending, ids}
use rep_crec.TransactionManager.Deadlocks.Step.{Before-ne}
use rep_crec.TransactionManager.Roll.{RollInv}

-- What stands in the set of the entries with older ones is older.
Before-mem :
    (ts : Map Transaction) (time id : ℤ) (s : AgeSet) (t : Transaction)
    → find id ts ≡ some t
    → Aged ts s
    → Before time s
    → mem id (ids s) ≡ true
    → t.timestamp <ℤ time
Before-mem ts time id [] t f a b m = absurd cc
Before-mem ts time id ((u, k) ∷ s) t f ((x, found, y), a) (lt, b) m = elim (ℤ_discrete id k) [
  | yes p ↦
      let q : x ≡ t = ground arith in
      let r : u ≡ t.timestamp = sym y ∙ ap (λ z. z.timestamp) q in subst (λ z. z <ℤ time) r lt
  | no p ↦ Before-mem ts time id s t f a b (ground arith)
]

Before-erase_age : (time u : ℤ) (s : AgeSet) → Before time s → Before time (erase_age u s)
unfolding erase_age
Before-erase_age time u [] b = tt
Before-erase_age time u ((v, k) ∷ s) b = elim (ℤ_discrete u v) [
  | yes p ↦ ground (arith, b.1)
  | no p ↦ ground (arith, b.0, Before-erase_age time u s b.1)
]

-- What the erasure of the transaction's time leaves.
abbrev Without : ℤ → Map Transaction → AgeSet → AgeSet → Type 0
Without t ts s s' =
    Aged (erase t ts) s'
    × Descending s'
    × ((k : ℤ) → mem k (ids s) ≡ true → k ≢ t → mem k (ids s') ≡ true)

erase_age-Without :
    (t : ℤ) (tran : Transaction) (ts : Map Transaction) (s : AgeSet)
    → find t ts ≡ some tran
    → Aged ts s
    → Descending s
    → mem t (ids s) ≡ true
    → Without t ts s (erase_age tran.timestamp s)
unfolding erase_age
erase_age-Without t tran ts [] f a d m = absurd cc
erase_age-Without t tran ts ((u, k) ∷ s) f ((x, found, y), a) (bef, d) m = elim (ℤ_discrete t k) [
  | yes p ↦
      let q : x ≡ tran = ground arith in
      let same : tran.timestamp ≡ u = ap (λ z. z.timestamp) (sym q) ∙ y in
      let r : erase_age tran.timestamp ((u, k) ∷ s) ≡ s = ground arith in
      subst (Without t ts ((u, k) ∷ s)) (sym r)
        (Before-ne u t s ts tran f same a bef, d, λ j h n. ground arith)
  | no p ↦
      let in_rest : mem t (ids s) ≡ true = ground arith in
      let older : tran.timestamp <ℤ u = Before-mem ts u t s tran f a bef in_rest in
      let (a', d', m') = erase_age-Without t tran ts s f a d in_rest in
      let r : erase_age tran.timestamp ((u, k) ∷ s) ≡ (u, k) ∷ erase_age tran.timestamp s =
        elim (ℤ_discrete tran.timestamp u) [
          | yes z ↦ absurd (let w : u <ℤ u = subst (λ y. y <ℤ u) z older in omega arith)
          | no z ↦ ground arith
        ] in
      subst (Without t ts ((u, k) ∷ s)) (sym r) (
        ((x, find-erase_ne k t ts (λ z. p (sym z)) ∙ found, y), a'),
        (Before-erase_age u tran.timestamp s bef, d'),
        λ j h n. ground (arith, m' j),
      )
]

contains-erase :
    (k t : ℤ) (ts : Map Transaction)
    → contains k (erase t ts) ≡ true
    → (k ≢ t) × (contains k ts ≡ true)
contains-erase k t ts h = elim (ℤ_discrete k t) [
  | yes p ↦ absurd (ground (arith, find-erase_self t ts))
  | no p ↦ (p, ground (arith, find-erase_ne k t ts))
]

pub contains-erase_ne :
    (k t : ℤ) (ts : Map Transaction) → k ≢ t → contains k ts ≡ true → contains k (erase t ts) ≡ true
contains-erase_ne k t ts n h = ground (arith, find-erase_ne k t ts n)

-- The eviction of a transaction that does not wait.
pub erase_from_set-RollInv :
    (t : ℤ) (ts : Map Transaction) (s s' : AgeSet) (table graph : Map Set) (sites : SiteManager)
    → erase_from_set (find t ts) s ≡ ok s'
    → is_waiting t graph ≡ false
    → RollInv ts s table graph sites
    → RollInv (erase t ts) s' table graph sites
unfolding erase_from_set
erase_from_set-RollInv t ts s s' table graph sites e w i =
    let (a, d, m) = parts in
    record {
      aged = a;
      descending = d;
      all = λ k h. let (n, c) = contains-erase k t ts h in m k (i.all k c) n;
      tabled = i.tabled;
      copies = i.copies;
      waits = λ k h. elim (ℤ_discrete k t) [
        | yes p ↦ absurd (let q = subst (λ y. is_waiting y graph ≡ true) p h in cc)
        | no p ↦ contains-erase_ne k t ts p (i.waits k h)
      ];
    }
  where
    list_cases : (l : AgeSet) → (l ≡ []) ⊎ ((x : ℤ × ℤ) × (xs : AgeSet) × (l ≡ x ∷ xs))
    list_cases [] = inl refl
    list_cases (x ∷ xs) = inr (x, xs, refl)

    parts : Without t ts s s'
    parts = elim (Option-cases (find t ts)) [
      | inl n ↦ elim (list_cases s) [
        | inl p ↦
            let q : s' ≡ [] = ground arith in
            subst (Without t ts s) (sym q) (tt, tt, λ k h z. absurd (ground arith))
        | inr (x, xs, p) ↦ absurd (ground arith)
      ]
      | inr (tran, found) ↦
          let q : erase_age tran.timestamp s ≡ s' = ground arith in
          subst (Without t ts s) q
            (erase_age-Without t tran ts s found i.aged i.descending (i.all t (ground arith)))
    ]
