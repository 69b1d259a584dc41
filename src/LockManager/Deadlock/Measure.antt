-- ===== src/LockManager/Deadlock/Measure.antt =====
-- The number of nodes that the search has not entered, which bounds how deep it goes.
use rep_crec.Base.{
  if◌then◌else◌, ◌==ℤ◌, ℕ, ◌+◌, ◌≤◌, ◌<◌, true, ◌≡◌, refl, ◌⊎◌, inl, inr, ◌≢◌, List, [], ◌∷◌, ℤ,
  find-insert_self, find-insert_ne, mem, arith, length,
}
use rep_crec.LockManager.Deadlock.{
  Dfs, DfsStatus, not_visit, on_path, visited, status_of, set_status,
}

abbrev pub is_new : DfsStatus → ℕ
is_new not_visit = 1
is_new on_path = 0
is_new visited = 0

pub pending : List ℤ → Dfs → ℕ
pending [] d = 0
pending (t ∷ ts) d = is_new (status_of t d) + pending ts d

pub pending-le-length : (ts : List ℤ) (d : Dfs) → pending ts d ≤ length ts
unfolding pending
pending-le-length [] d = omega arith
pending-le-length (t ∷ ts) d = ground (arith, pending-le-length ts d)

-- What is new afterwards was new before.
abbrev pub Ages : Dfs → Dfs → Type 0
Ages d d' = (a : ℤ) → status_of a d' ≡ not_visit → status_of a d ≡ not_visit

pub pending_mono : (ts : List ℤ) (d d' : Dfs) → Ages d d' → pending ts d' ≤ pending ts d
unfolding pending
pending_mono [] d d' h = omega arith
pending_mono (t ∷ ts) d d' h = ground (arith, pending_mono ts d d' h, h t)

pub status_of-set_status_self :
    (t : ℤ) (s : DfsStatus) (d : Dfs) → status_of t (set_status t s d) ≡ s
status_of-set_status_self t s d = ground (arith, find-insert_self t s d.status)

pub status_of-set_status_ne :
    (a t : ℤ) (s : DfsStatus) (d : Dfs) → a ≢ t → status_of a (set_status t s d) ≡ status_of a d
status_of-set_status_ne a t s d h = ground (arith, find-insert_ne a t s d.status h)

-- A node of the list that is entered counts no longer.
pub pending-lt :
    (ts : List ℤ) (t : ℤ) (d d' : Dfs)
    → Ages d d'
    → mem t ts ≡ true
    → status_of t d ≡ not_visit
    → status_of t d' ≡ on_path
    → pending ts d' < pending ts d
unfolding pending
pending-lt [] t d d' h m new entered = cc
pending-lt (x ∷ ts) t d d' h m new entered =
    ground (arith, pending-lt ts t d d' h, pending_mono ts d d' h, h x)

pub Status-cases : (s : DfsStatus) → (s ≡ not_visit) ⊎ ((s ≡ on_path) ⊎ (s ≡ visited))
Status-cases not_visit = inl refl
Status-cases on_path = inr (inl refl)
Status-cases visited = inr (inr refl)

pub status_of-set_status :
    (a t : ℤ) (s : DfsStatus) (d : Dfs)
    → status_of a (set_status t s d) ≡ (if a ==ℤ t then s else status_of a d)
status_of-set_status a t s d =
    ground (arith, find-insert_self t s d.status, find-insert_ne a t s d.status)
