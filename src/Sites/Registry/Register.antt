-- ===== src/Sites/Registry/Register.antt =====
-- What `Register` stores, and that a refusal stores nothing.
use lara_nux.Base.{true, List, [], ◌∷◌, ◌++◌, some, ◌≡◌, refl, arith}
use lara_nux.Text.{Unicode}
use lara_nux.Effect.Fault.{Result, ok, err, is_ok}
use lara_nux.Effect.Action.{◌>>=◌, check, try}
use lara_nux.World.{Os, StateFile, StateLaws}
use lara_nux.Sites.Record.{SiteRecord, SiteRegistrationInput, SiteRegistryState}
use lara_nux.Sites.Domain.{normalize_domain}
use lara_nux.Sites.Domain.Sound.{IsDomain, normalize_domain-IsDomain}
use lara_nux.Runtimes.Version.{normalize_php_version}
use lara_nux.Sites.Name.{derive_site_name}
use lara_nux.Sites.Registry.Paths
use lara_nux.Sites.Registry.Unique.{IsUnique, IsUnique-append, check_duplicates_iff}
use lara_nux.Sites.Registry.{register, check_duplicates}

abbrev pub sites_of : Result SiteRegistryState → List SiteRecord
sites_of (ok state) = state.sites
sites_of (err e) = []

module _ {σ : Type 0} (os : Os σ) (file : StateFile σ SiteRegistryState) (laws : StateLaws os file)
    ⦃u : Unicode⦄ where
  open laws use {
    content, load-content, content-load, content-save, content-save_failed, content-entropy,
  }

  pub load-stored :
      (w : σ)
      → is_ok (file.load w).0 ≡ true
      → content w ≡ some (record { sites = sites_of (file.load w).0 })
  load-stored w h = by_result (file.load w).0 refl h
    where
      by_result :
          (r : Result SiteRegistryState)
          → (file.load w).0 ≡ r
          → is_ok r ≡ true
          → content w ≡ some (record { sites = sites_of r })
      by_result (ok state) e h = load-content w state e
      by_result (err e') e h = cc

  -- The checks of a registration that have passed, and what it has stored.
  pub record Passed (input : SiteRegistrationInput) (w w' : σ) (site : SiteRecord) : Type 0 where
    pub stored : List SiteRecord
    pub before : content w ≡ some (record { sites = stored })
    pub behind : content w' ≡ some (record { sites = stored ++ site ∷ [] })
    pub fresh : check_duplicates site.name site.domain stored ≡ ok tt
    pub named : site.name ≡ derive_site_name site.root_path
    pub rooted : Paths.normalize_root_path os w input.root_path ≡ ok site.root_path
    pub checked : Paths.validate_laravel_path os w site.root_path ≡ ok tt
    pub resolved : normalize_domain input.domain site.name ≡ ok site.domain
    pub version : site.php_version ≡ normalize_php_version input.php_version
    pub created : site.created_at ≡ os.now (file.load w).1
    pub updated : site.updated_at ≡ os.now (file.load w).1

  pub register_stores :
      (input : SiteRegistrationInput) (w : σ) (site : SiteRecord)
      → (register os file input w).0 ≡ ok site
      → Passed input w (register os file input w).1 site
  unfolding register ◌>>=◌ check try
  register_stores input w site h =
      let stored = sites_of (file.load w).0 in
      let drawn = (os.entropy (file.load w).1).1 in
      record {
        stored = stored;
        before = ground (arith, load-stored w);
        behind = ground (arith, content-save (record { sites = stored ++ site ∷ [] }) drawn);
        fresh = ground arith;
        named = ground arith;
        rooted = ground arith;
        checked = ground arith;
        resolved = ground arith;
        version = ground arith;
        created = ground arith;
        updated = ground arith;
      }

  -- If no two stored sites agree in name or in domain, case aside, then the same holds behind a
  -- Register that succeeds, the new site stands behind the stored ones, and its domain is a well
  -- formed name below .test.
  pub register-IsUnique :
      (input : SiteRegistrationInput) (w : σ) (site : SiteRecord) (stored : List SiteRecord)
      → content w ≡ some (record { sites = stored })
      → IsUnique stored
      → (register os file input w).0 ≡ ok site
      → (content (register os file input w).1 ≡ some (record { sites = stored ++ site ∷ [] }))
        × IsUnique (stored ++ site ∷ [])
        × IsDomain site.domain
  register-IsUnique input w site stored before unique h =
      let r = register_stores input w site h in
      let same : r.stored ≡ stored = cc (before, r.before) in
      (
        rw (← same) r.behind,
        IsUnique-append stored site unique
            ((check_duplicates_iff site.name site.domain stored).0 (rw (← same) r.fresh)),
        normalize_domain-IsDomain input.domain site.name site.domain r.resolved,
      )
