-- ===== src/LockManager/Release/Waiters.antt =====
-- Who still waits once a transaction has given up its locks.
use rep_crec.Base.{
  IsMap, erase-IsMap, ◌≢◌, some, sym, mem-remove_ne, true, false, not, ◌≡◌, refl, ◌∙◌, none, [],
  ◌∷◌, ℤ, ◌==ℤ◌, Map, Set, find, find_or, erase, contains, mem, remove, find-erase_self,
  find-erase_ne, arith, if◌then◌else◌,
}
use rep_crec.LockManager.{is_empty, is_waiting}
use rep_crec.LockManager.Release.{emptied, erase_all, release_waiters}

pub find-erase_all :
    (u : ℤ) (ts : Set) (g : Map Set)
    → find u (erase_all ts g) ≡ (if mem u ts then none else find u g)
unfolding erase_all
find-erase_all u [] g = refl
find-erase_all u (t ∷ ts) g =
    find-erase_all u ts (erase t g) ∙ ground (arith, find-erase_self t g, find-erase_ne u t g)

pub mem-emptied_absent :
    (u t : ℤ) (g : Map Set) → contains u g ≡ false → mem u (emptied t g) ≡ false
unfolding emptied
mem-emptied_absent u t [] h = refl
mem-emptied_absent u t ((k, ts) ∷ g) h = ground (arith, mem-emptied_absent u t g)

pub mem-emptied :
    (u t : ℤ) (g : Map Set)
    → IsMap g
    → contains u g ≡ true
    → mem u (emptied t g) ≡ is_empty (remove t (find_or [] u g))
unfolding emptied
mem-emptied u t [] d h = cc
mem-emptied u t ((k, ts) ∷ g) d h = ground (arith, mem-emptied u t g d.1, mem-emptied_absent u t g)

remove_nonempty : (t : ℤ) (s : Set) → is_empty (remove t s) ≡ false → is_empty s ≡ false
remove_nonempty t [] h = cc
remove_nonempty t (x ∷ s) h = refl

-- After the release a transaction waits for a lock exactly if it is another one and waited for
-- somebody besides the released one, given that no key stands twice in the graph.
pub release_waiters-is_waiting :
    (u t : ℤ) (g : Map Set)
    → IsMap g
    → is_waiting u (release_waiters t g)
      ≡ (if u ==ℤ t then false else not (is_empty (remove t (find_or [] u g))))
unfolding is_waiting release_waiters
release_waiters-is_waiting u t g d = ground (
  arith,
  find-erase_self t (erase_all (emptied t g) g),
  find-erase_ne u t (erase_all (emptied t g) g),
  find-erase_all u (emptied t g) g,
  mem-emptied u t g d,
  remove_nonempty t (find_or [] u g),
)

erase_all-IsMap : (ts : Set) (g : Map Set) → IsMap g → IsMap (erase_all ts g)
unfolding erase_all
erase_all-IsMap [] g d = d
erase_all-IsMap (t ∷ ts) g d = erase_all-IsMap ts (erase t g) (erase-IsMap t g d)

-- The graph after a release has every key once, if it had before.
release_waiters-IsMap : (t : ℤ) (g : Map Set) → IsMap g → IsMap (release_waiters t g)
unfolding release_waiters
release_waiters-IsMap t g d = erase-IsMap t _ (erase_all-IsMap (emptied t g) g d)

mem_nonempty : (a : ℤ) (s : Set) → mem a s ≡ true → is_empty s ≡ false
mem_nonempty a [] h = cc
mem_nonempty a (x ∷ s) h = refl

find-release_waiters :
    (u t b : ℤ) (ts : Set) (g : Map Set)
    → IsMap g
    → u ≢ t
    → b ≢ t
    → find u g ≡ some ts
    → mem b ts ≡ true
    → find u (release_waiters t g) ≡ some ts
unfolding release_waiters
find-release_waiters u t b ts g d h k e m = ground (
  arith,
  find-erase_ne u t (erase_all (emptied t g) g),
  find-erase_all u (emptied t g) g,
  mem-emptied u t g d,
  mem_nonempty b (remove t ts),
  mem-remove_ne b t ts k,
)

-- A transaction that waits for two others waits still when both have given up their locks, given
-- that no key stands twice in the graph.
pub release_waiters_both :
    (u a b : ℤ) (ts : Set) (g : Map Set)
    → IsMap g
    → find u g ≡ some ts
    → mem a ts ≡ true
    → mem b ts ≡ true
    → a ≢ b
    → u ≢ a
    → u ≢ b
    → is_waiting u (release_waiters b (release_waiters a g)) ≡ true
release_waiters_both u a b ts g d e ma mb ab ua ub =
    let d' = release_waiters-IsMap a g d in
    let e' = find-release_waiters u a b ts g d ua (λ p. ab (sym p)) e mb in
    ground (
      arith,
      release_waiters-is_waiting u b (release_waiters a g) d',
      mem_nonempty a (remove b ts),
      mem-remove_ne a b ts ab,
    )
