-- ===== src/LockManager/Hold.antt =====
-- Who holds a lock where, and what is true of all locks together.
pub mod Release
pub mod Take
pub mod Ask
pub mod Assign
use rep_crec.Base.{
  Bool, true, false, ◌≡◌, subst, sym, ap, ◌∙◌, ◌||◌, Option, none, some, [], ◌∷◌, ℤ, Map, Set, mem,
  find_or, contains, find, IsMap, is_some,
}
use rep_crec.Variable.{Variable, has_shared_lock, has_exclusive_lock}
use rep_crec.Global.{is_odd, home_site}
use rep_crec.SiteManager.{SiteManager, site_ids}
use rep_crec.SiteManager.Copies.{copy}
use rep_crec.Transaction.{Transaction}
use rep_crec.LockManager.Release.Frees.{sites_of}

abbrev pub holds : ℤ → Variable → Bool
holds t v = has_exclusive_lock t v || has_shared_lock t v

abbrev pub holds_copy : ℤ → Option Variable → Bool
holds_copy t none = false
holds_copy t (some v) = holds t v

-- The transaction holds a lock of the copy of a variable at a site.
abbrev pub locked : ℤ → ℤ → ℤ → SiteManager → Bool
locked t a b sites = holds_copy t (copy a b sites)

abbrev pub present : ℤ → ℤ → SiteManager → Bool
present a b sites = is_some (copy a b sites)

-- No copy is locked by two transactions; each lock is in the lock table; a copy is locked at a site
-- of its variable only; the sites have the known numbers; the lock table lists known transactions
-- only, and none of these is listed twice.
pub record LockInv (table : Map Set) (transactions : Map Transaction) (sites : SiteManager)
    : Type 0 where
  pub sole : (a b t u : ℤ) → locked t a b sites ≡ true → locked u a b sites ≡ true → t ≡ u
  pub listed : (a b t : ℤ) → locked t a b sites ≡ true → mem b (find_or [] t table) ≡ true
  pub placed : (a b t : ℤ) → locked t a b sites ≡ true → mem a (sites_of b) ≡ true
  pub numbered : (a b : ℤ) → present a b sites ≡ true → mem a site_ids ≡ true
  pub live : (t : ℤ) → contains t table ≡ true → contains t transactions ≡ true
  pub known : IsMap transactions

-- At the sites of the set, nobody but the transaction holds a lock of the variable, and the set of an
-- odd variable has no site but its home.
abbrev pub Ours : ℤ → Set → ℤ → SiteManager → Type 0
Ours t sids x sites =
    ((sid u : ℤ) → mem sid sids ≡ true → locked u sid x sites ≡ true → u ≡ t)
    × ((sid : ℤ) → mem sid sids ≡ true → is_odd x ≡ true → sid ≡ home_site x)

-- The same locks at the same copies.
abbrev pub SameLocks : SiteManager → SiteManager → Type 0
SameLocks sites sites' =
    ((t a b : ℤ) → locked t a b sites' ≡ locked t a b sites)
    × ((a b : ℤ) → present a b sites' ≡ present a b sites)

pub LockInv-SameLocks :
    {table : Map Set} {transactions : Map Transaction} {sites sites' : SiteManager}
    → SameLocks sites sites'
    → LockInv table transactions sites
    → LockInv table transactions sites'
LockInv-SameLocks (l, p) i = record {
  sole = λ a b t u h k. i.sole a b t u (sym (l t a b) ∙ h) (sym (l u a b) ∙ k);
  listed = λ a b t h. i.listed a b t (sym (l t a b) ∙ h);
  placed = λ a b t h. i.placed a b t (sym (l t a b) ∙ h);
  numbered = λ a b h. i.numbered a b (sym (p a b) ∙ h);
  live = i.live;
  known = i.known;
}

pub LockInv-transactions :
    {table : Map Set} {transactions transactions' : Map Transaction} {sites : SiteManager}
    → ((t : ℤ)
        → contains t table ≡ true
        → contains t transactions ≡ true
        → contains t transactions' ≡ true)
    → IsMap transactions'
    → LockInv table transactions sites
    → LockInv table transactions' sites
LockInv-transactions h d i = record {
  sole = i.sole;
  listed = i.listed;
  placed = i.placed;
  numbered = i.numbered;
  live = λ t k. h t k (i.live t k);
  known = d;
}
