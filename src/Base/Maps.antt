-- ===== src/Base/Maps.antt =====
-- Containers keyed by integers, as lists in the order in which the source iterates over them.
use mathlib.Core.Path.{◌≡◌, refl}
use mathlib.Core.Logic.{◌≢◌}
use mathlib.Core.Bool.{Bool, true, false, ◌||◌}
use mathlib.Core.Option.{Option, none, some}
use mathlib.Core.List.{List, [], ◌∷◌, map}
use Prim.Native.Nat.{ℕ, zero, suc, ◌+◌}
use native.Mathlib.Omega.{arith}
use rep_crec.Base.Int.{ℤ, pos, ◌==ℤ◌}
use rep_crec.Base.Logic.{if◌then◌else◌, is_some}

-- `std::unordered_map<int, V>`: a new key goes to the front, a known key keeps its place.
abbrev pub Map {ℓ} : Type ℓ → Type ℓ
Map V = List (ℤ × V)

module _ {ℓ} {V : Type ℓ} where
  abbrev pub find : ℤ → Map V → Option V
  find k [] = none
  find k ((j, v) ∷ m) = if k ==ℤ j then some v else find k m

  abbrev pub find_or : V → ℤ → Map V → V
  find_or d k m = elim (find k m) [ none ↦ d | some v ↦ v ]

  -- `m.count(k)`
  abbrev pub contains : ℤ → Map V → Bool
  contains k m = is_some (find k m)

  -- Writes at a key that is there.
  abbrev pub update : ℤ → V → Map V → Map V
  update k v [] = []
  update k v ((j, w) ∷ m) = if k ==ℤ j then (j, v) ∷ m else (j, w) ∷ update k v m

  -- `m[k] = v`
  abbrev pub insert : ℤ → V → Map V → Map V
  insert k v m = if contains k m then update k v m else (k, v) ∷ m

  -- `m.erase(k)`
  abbrev pub erase : ℤ → Map V → Map V
  erase k [] = []
  erase k ((j, w) ∷ m) = let rest = erase k m in if k ==ℤ j then rest else (j, w) ∷ rest

  abbrev pub keys : Map V → List ℤ
  keys = map (λ e. e.0)

  pub find-update_self :
      (k : ℤ) (v : V) (m : Map V) → contains k m ≡ true → find k (update k v m) ≡ some v
  find-update_self k v [] h = cc
  find-update_self k v ((j, w) ∷ m) h = ground (arith, find-update_self k v m)

  pub find-update_ne : (j k : ℤ) (v : V) (m : Map V) → j ≢ k → find j (update k v m) ≡ find j m
  find-update_ne j k v [] h = refl
  find-update_ne j k v ((i, w) ∷ m) h = ground (arith, find-update_ne j k v m)

  pub find-insert_self : (k : ℤ) (v : V) (m : Map V) → find k (insert k v m) ≡ some v
  find-insert_self k v m = ground (arith, find-update_self k v m)

  pub find-insert_ne : (j k : ℤ) (v : V) (m : Map V) → j ≢ k → find j (insert k v m) ≡ find j m
  find-insert_ne j k v m h = ground (arith, find-update_ne j k v m h)

  pub find-erase_self : (k : ℤ) (m : Map V) → find k (erase k m) ≡ none
  find-erase_self k [] = refl
  find-erase_self k ((j, w) ∷ m) = ground (arith, find-erase_self k m)

  pub find-erase_ne : (j k : ℤ) (m : Map V) → j ≢ k → find j (erase k m) ≡ find j m
  find-erase_ne j k [] h = refl
  find-erase_ne j k ((i, w) ∷ m) h = ground (arith, find-erase_ne j k m)

  -- No key stands twice.
  abbrev pub IsMap : Map V → Type 0
  IsMap [] = Unit {0}
  IsMap ((k, v) ∷ m) = (contains k m ≡ false) × IsMap m

  pub contains-erase : (j k : ℤ) (m : Map V) → contains j m ≡ false → contains j (erase k m) ≡ false
  contains-erase j k [] h = refl
  contains-erase j k ((i, v) ∷ m) h = ground (arith, contains-erase j k m)

  pub erase-IsMap : (k : ℤ) (m : Map V) → IsMap m → IsMap (erase k m)
  erase-IsMap k [] d = tt
  erase-IsMap k ((i, v) ∷ m) d = ground (arith, erase-IsMap k m d.1, contains-erase i k m d.0)

  contains-update : (j k : ℤ) (v : V) (m : Map V) → contains j (update k v m) ≡ contains j m
  contains-update j k v [] = refl
  contains-update j k v ((i, w) ∷ m) = ground (arith, contains-update j k v m)

  update-IsMap : (k : ℤ) (v : V) (m : Map V) → IsMap m → IsMap (update k v m)
  update-IsMap k v [] d = tt
  update-IsMap k v ((i, w) ∷ m) d = ground (arith, update-IsMap k v m d.1, contains-update i k v m)

  pub insert-IsMap : (k : ℤ) (v : V) (m : Map V) → IsMap m → IsMap (insert k v m)
  insert-IsMap k v m d = ground (arith, update-IsMap k v m d)

-- `std::unordered_set<int>`, in iteration order.
abbrev pub Set : Type 0
Set = List ℤ

abbrev pub mem : ℤ → Set → Bool
mem k [] = false
mem k (j ∷ s) = (k ==ℤ j) || mem k s

abbrev pub add : ℤ → Set → Set
add k s = if mem k s then s else k ∷ s

abbrev pub remove : ℤ → Set → Set
remove k [] = []
remove k (j ∷ s) = let rest = remove k s in if k ==ℤ j then rest else j ∷ rest

pub mem-add : (j k : ℤ) (s : Set) → mem j (add k s) ≡ ((j ==ℤ k) || mem j s)
mem-add j k s = ground arith

pub mem-remove_self : (k : ℤ) (s : Set) → mem k (remove k s) ≡ false
mem-remove_self k [] = refl
mem-remove_self k (j ∷ s) = ground (arith, mem-remove_self k s)

pub mem-remove_ne : (j k : ℤ) (s : Set) → j ≢ k → mem j (remove k s) ≡ mem j s
mem-remove_ne j k [] h = refl
mem-remove_ne j k (i ∷ s) h = ground (arith, mem-remove_ne j k s)

-- `for (i = start; i < start + count; ++i)`, as the list of the values of `i`.
unfoldable pub range : ℕ → ℕ → List ℤ
range start zero = []
range start (suc count) = pos start ∷ range (start + 1) count

module _ {ℓ} {A : Type ℓ} where
  abbrev pub length : List A → ℕ
  length [] = 0
  length (x ∷ xs) = suc (length xs)
