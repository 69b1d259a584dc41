-- ===== src/LockManager/Release/Sites.antt =====
-- A release leaves the availability of the sites alone.
use rep_crec.Base.{
  false, insert, ◌≡◌, ap, ◌∙◌, inl, inr, Option, none, some, List, [], ◌∷◌, ℤ, Bool, Set, Map, find,
  find_or, find-insert_self, find-insert_ne, ok, arith, >>=-eq-ok, Result-cases,
}
use rep_crec.Variable.{Variable}
use rep_crec.Site.{Site}
use rep_crec.SiteManager.{SiteManager, on_copy}
use rep_crec.SiteManager.Copies.{on_copy-eq-ok}
use rep_crec.LockManager.{LockManager}
use rep_crec.LockManager.Release.{unlock, unlock_at, unlock_all, release_locks}

abbrev pub flags : Option Site → Option (Bool × Map Bool)
flags none = none
flags (some s) = some (s.write_available, s.read_available_map)

-- Whether a site is up, and which of its copies can be read.
abbrev pub availability : ℤ → SiteManager → Option (Bool × Map Bool)
availability a sites = flags (find a sites)

abbrev pub writes_in : Option (Bool × Map Bool) → Bool
writes_in none = false
writes_in (some (up, m)) = up

-- Whether the site is there and up.
abbrev pub writable : ℤ → SiteManager → Bool
writable a sites = writes_in (availability a sites)

pub on_copy-availability :
    (a sid vid : ℤ) (f : Variable → Variable) (m : SiteManager) {m' : SiteManager}
    → on_copy sid vid f m ≡ ok m'
    → availability a m' ≡ availability a m
on_copy-availability a sid vid f m {m'} e =
    let (s, v, found, at, p) = on_copy-eq-ok sid vid f m e in
    let s' = record s { variables = insert vid (f v) s.variables } in
    ground (arith, p, find-insert_self sid s' m, find-insert_ne a sid s' m)

unlock_at-availability :
    (a t vid : ℤ) (sids : List ℤ) (m m' : SiteManager)
    → unlock_at t vid sids m ≡ ok m'
    → availability a m' ≡ availability a m
unfolding unlock_at
unlock_at-availability a t vid [] m m' e = ap (availability a) (let p : m' ≡ m = cc in p)
unlock_at-availability a t vid (s ∷ sids) m m' e =
    let (n, first, rest) = >>=-eq-ok (on_copy s vid (unlock t) m) (unlock_at t vid sids) e in
    unlock_at-availability a t vid sids n m' rest ∙ on_copy-availability a s vid (unlock t) m first

unlock_all-availability :
    (a t : ℤ) (vids : Set) (m m' : SiteManager)
    → unlock_all t vids m ≡ ok m'
    → availability a m' ≡ availability a m
unfolding unlock_all
unlock_all-availability a t [] m m' e = ap (availability a) (let p : m' ≡ m = cc in p)
unlock_all-availability a t (v ∷ vids) m m' e =
    let (n, first, rest) = >>=-eq-ok (unlock_at t v _ m) (unlock_all t vids) e in
    unlock_all-availability a t vids n m' rest ∙ unlock_at-availability a t v _ m n first

pub release_locks-availability :
    (a t : ℤ) (l : LockManager) (m : SiteManager) {l' : LockManager} {m' : SiteManager}
    → release_locks t (l, m) ≡ ok (l', m')
    → availability a m' ≡ availability a m
unfolding release_locks
release_locks-availability a t l m {l'} {m'} e =
    elim (Result-cases (unlock_all t (find_or [] t l.lock_table) m)) [
      | inl (n, first) ↦
          let p : m' ≡ n = ground arith in
          ap (availability a) p ∙ unlock_all-availability a t (find_or [] t l.lock_table) m n first
      | inr (x, first) ↦ absurd (ground arith)
    ]
