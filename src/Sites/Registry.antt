-- ===== src/Sites/Registry.antt =====
-- The methods of `SiteRegistry`, and `ValidateLaravelPath` and `normalizeRootPath`:
-- daemon/internal/app/site_registry.go.
pub mod Paths
pub mod Unique
pub mod Register
pub mod Registered
pub mod Atomic
pub mod Methods
use lara_nux.Base.{
  ℕ, Bool, true, false, not, List, [], ◌∷◌, ◌++◌, if◌then◌else◌, is_empty, Option, none, some, find,
  sort, is_some,
}
use lara_nux.Text.{Text, Unicode, lit, text_eq, text_lt, equal_fold, trim_space}
use lara_nux.Effect.Fault.{
  Error, Result, ok, err, require, sentinel, duplicate_site_name, duplicate_domain, site_not_found,
}
use lara_nux.Effect.Action.{Action, ◌>>=◌, ◌>>◌, pure, raise, lift, gets, check, try}
use lara_nux.World.{Os, StateFile, reads}
use lara_nux.Sites.Record.{SiteRecord, SiteStatus, SiteRegistrationInput, SiteRegistryState, ready}
use lara_nux.Sites.Domain.{normalize_domain}
use lara_nux.Sites.Name.{derive_site_name, new_record_id}
use lara_nux.Runtimes.Version.{normalize_php_version}

-- The loop of `Register` over the registered sites.
unfoldable pub check_duplicates : ⦃u : Unicode⦄ → Text → Text → List SiteRecord → Result (Unit {0})
check_duplicates name domain [] = ok tt
check_duplicates ⦃u⦄ name domain (existing ∷ sites) =
    let rest = check_duplicates name domain sites in
    if equal_fold existing.name name
    then err (
        sentinel duplicate_site_name
          (lit "duplicate site name: site name " ++ (u.quote name ++ lit " is already registered")))
    else if equal_fold existing.domain domain
    then err (
        sentinel duplicate_domain (
          lit "duplicate site domain: domain " ++ (u.quote domain ++ lit " is already registered")))
    else rest

-- The first site with the id replaced; `none` if there is no such site.
unfoldable pub replace_first : Text → SiteRecord → List SiteRecord → Option (List SiteRecord)
replace_first id new [] = none
replace_first id new (site ∷ sites) =
    let rest = replace_first id new sites in
    if text_eq site.id id
    then some (new ∷ sites)
    else elim rest [ none ↦ none | some sites' ↦ some (site ∷ sites') ]

-- The sites without the first one that has the id; `none` if there is no such site.
unfoldable pub remove_first : Text → List SiteRecord → Option (List SiteRecord)
remove_first id [] = none
remove_first id (site ∷ sites) =
    let rest = remove_first id sites in
    if text_eq site.id id
    then some sites
    else elim rest [ none ↦ none | some sites' ↦ some (site ∷ sites') ]

abbrev pub not_found : Text → Error
not_found id = sentinel site_not_found (lit "site not found: " ++ id)

abbrev pub or_not_found : {A : Type 0} → Text → Option A → Result A
or_not_found id none = err (not_found id)
or_not_found id (some a) = ok a

abbrev pub with_id : Text → SiteRecord → Bool
with_id id site = text_eq site.id id

abbrev pub by_domain : SiteRecord → SiteRecord → Bool
by_domain a b = text_lt a.domain b.domain

module _ {σ : Type 0} (os : Os σ) (file : StateFile σ SiteRegistryState) ⦃u : Unicode⦄ where
  next_record_id : Action σ Text
  unfolding new_record_id
  next_record_id = do bytes ← try os.entropy; now ← gets os.now; pure (new_record_id bytes now)

  -- `Register`
  unfoldable pub register : SiteRegistrationInput → Action σ SiteRecord
  unfolding next_record_id
  register input = do
    check os.done
    root_path ← reads (λ w. Paths.normalize_root_path os w input.root_path)
    reads (λ w. Paths.validate_laravel_path os w root_path)
    state ← file.load
    let name = derive_site_name root_path
    domain ← lift (normalize_domain input.domain name)
    lift (check_duplicates name domain state.sites)
    now ← gets os.now
    id ← next_record_id
    let site : SiteRecord = record {
      id = id;
      name = name;
      root_path = root_path;
      domain = domain;
      php_version = normalize_php_version input.php_version;
      tls = lit "auto";
      status = ready;
      status_message = lit "Site registered and ready for orchestration.";
      created_at = now;
      updated_at = now;
      last_checked_at = now;
    }
    file.save (record { sites = state.sites ++ site ∷ [] })
    pure site

  -- `List`
  unfoldable pub list : Action σ (List SiteRecord)
  unfolding sort text_lt
  list = do check os.done; state ← file.load; pure (sort by_domain state.sites)

  -- `Get`
  unfoldable pub get : Text → Action σ SiteRecord
  unfolding find
  get site_id = do
    check os.done
    state ← file.load
    lift (or_not_found site_id (find (with_id site_id) state.sites))

  -- `Update`: the time of creation is the stored one's.
  unfoldable pub update : SiteRecord → Action σ SiteRecord
  unfolding find replace_first
  update site = do
    check os.done
    state ← file.load
    stored ← lift (or_not_found site.id (find (with_id site.id) state.sites))
    now ← gets os.now
    let site' = record site { created_at = stored.created_at; updated_at = now }
    sites' ← lift (or_not_found site.id (replace_first site.id site' state.sites))
    file.save (record { sites = sites' })
    pure site'

  -- `Delete`
  unfoldable pub delete : Text → Action σ (Unit {0})
  unfolding remove_first
  delete site_id = do
    check os.done
    state ← file.load
    sites' ← lift (or_not_found site_id (remove_first site_id state.sites))
    file.save (record { sites = sites' })

  -- `SetStatus`
  unfoldable pub set_status : Text → SiteStatus → Text → ℕ → Action σ SiteRecord
  unfolding get update
  set_status site_id status message checked_at = do
    site ← get site_id
    update (record site {
      status = status;
      status_message = trim_space message;
      last_checked_at = checked_at;
    })

-- A call of one of the methods that change the registry.
pub data Change : Type 0 where
  register_site : SiteRegistrationInput → Change
  update_site : SiteRecord → Change
  delete_site : Text → Change
  set_site_status : Text → SiteStatus → Text → ℕ → Change

module _ {σ : Type 0} (os : Os σ) (file : StateFile σ SiteRegistryState) ⦃u : Unicode⦄ where
  unfoldable pub apply : Change → Action σ (Unit {0})
  unfolding register update delete set_status
  apply (register_site input) = register os file input >> pure tt
  apply (update_site site) = update os file site >> pure tt
  apply (delete_site id) = delete os file id
  apply (set_site_status id status message checked_at) =
      set_status os file id status message checked_at >> pure tt
