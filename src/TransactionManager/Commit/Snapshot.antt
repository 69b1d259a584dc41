-- ===== src/TransactionManager/Commit/Snapshot.antt =====
-- Read-only transactions read as of their begin, whatever is committed later.
use rep_crec.Base.{
  ◌≡◌, ◌≢◌, refl, ap, ◌∙◌, Option, some, none, [], ℤ, ◌<ℤ◌, minus_one, find, find_or, IsMap, ok,
  Result, null_pointer, err,
}
use rep_crec.Variable.{Variable, get_value}
use rep_crec.Variable.Versions.{IsSorted, get_value-set_value_before}
use rep_crec.SiteManager.{SiteManager}
use rep_crec.SiteManager.Copies.{copy}
use rep_crec.Transaction.{Records}
use rep_crec.TransactionManager.Commit.{apply_records}
use rep_crec.TransactionManager.Commit.Install.{install, apply_records-installs}

-- What a read of a copy as of a time finds.
abbrev pub read_as_of : ℤ → Option Variable → Result ℤ
read_as_of time none = err null_pointer
read_as_of time (some v) = get_value time v

install-read_as_of :
    (u time : ℤ) (r : Option ℤ) (o : Option Variable)
    → ((v : Variable) → o ≡ some v → IsSorted v.versions)
    → u ≢ minus_one
    → u <ℤ time
    → read_as_of u (install time r o) ≡ read_as_of u o
install-read_as_of u time none o s n lt = refl
install-read_as_of u time (some x) none s n lt = refl
install-read_as_of u time (some x) (some v) s n lt =
    get_value-set_value_before u x time v (s v refl) n lt

-- A commit does not change what is read at any copy as of an earlier time other than -1, given that
-- the versions of the copy are in order of time; no site stands twice in the records of the commit,
-- nor a variable twice at a site.
pub apply_records_snapshot :
    (u time : ℤ) (r : Records) (m : SiteManager) (a b : ℤ) {m' : SiteManager}
    → IsMap r
    → ((k : ℤ) → IsMap (find_or [] k r))
    → ((v : Variable) → copy a b m ≡ some v → IsSorted v.versions)
    → u ≢ minus_one
    → u <ℤ time
    → apply_records time r m ≡ ok m'
    → read_as_of u (copy a b m') ≡ read_as_of u (copy a b m)
apply_records_snapshot u time r m a b d dv s n lt e =
    ap (read_as_of u) (apply_records-installs time r m d dv e a b).0
    ∙ install-read_as_of u time (find b (find_or [] a r)) (copy a b m) s n lt
