-- ===== src/SiteManager.antt =====
-- repcrec/site_manager: the ten sites by number.
pub mod Copies
pub mod Placement
pub mod Print
use rep_crec.Base.{
  Option, none, some, List, [], ◌∷◌, ℤ, Result, ok, or_fail, null_pointer, ◌>>=◌, Map, find, insert,
  range,
}
use rep_crec.Global.{site_count}
use rep_crec.Site.{Site, new_site}
use rep_crec.Site
use rep_crec.Variable.{Variable}

abbrev pub SiteManager : Type 0
SiteManager = Map Site

-- `for (sid = 1; sid <= SITE_COUNT; ++sid)`
unfoldable pub site_ids : List ℤ
unfolding range
site_ids = range 1 site_count

unfoldable pub new_sites : List ℤ → SiteManager
new_sites [] = []
new_sites (i ∷ is) = (i, new_site i) ∷ new_sites is

unfoldable pub new_site_manager : SiteManager
unfolding new_sites site_ids
new_site_manager = new_sites site_ids

-- `get_site(site_id)->`: an unknown number gives a null pointer.
unfoldable pub get_site : ℤ → SiteManager → Result Site
get_site site_id m = or_fail (find site_id m) null_pointer

unfoldable pub put_site : ℤ → Site → SiteManager → SiteManager
put_site site_id s m = insert site_id s m

-- A change of the object behind `get_site(site_id)`.
unfoldable pub on_site : ℤ → (Site → Result Site) → SiteManager → Result SiteManager
unfolding get_site put_site
on_site site_id f m = do s ← get_site site_id m; s' ← f s; ok (put_site site_id s' m)

unfoldable pub set_unavailable : ℤ → SiteManager → Result SiteManager
unfolding on_site
set_unavailable site_id m = on_site site_id (λ s. ok (Site.set_unavailable s)) m

-- `get_site(site_id)->get_variable(var_id)->`
unfoldable pub deref_copy : ℤ → ℤ → SiteManager → Result Variable
unfolding get_site
deref_copy site_id var_id m = do s ← get_site site_id m; Site.deref_variable var_id s

-- A change of the object behind `get_site(site_id)->get_variable(var_id)`.
unfoldable pub on_copy : ℤ → ℤ → (Variable → Variable) → SiteManager → Result SiteManager
unfolding on_site
on_copy site_id var_id f m =
    on_site site_id
      (λ s. Site.deref_variable var_id s >>= λ v. ok (Site.put_variable var_id (f v) s)) m

unfoldable pub dump : SiteManager → List (ℤ × List (Option (ℤ × ℤ)))
dump [] = []
dump ((i, s) ∷ m) = Site.dump s ∷ dump m
