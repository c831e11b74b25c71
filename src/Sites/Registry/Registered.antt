-- ===== src/Sites/Registry/Registered.antt =====
-- What a registration that succeeds has found on the host and among the stored sites, described by
-- the answers of the operating system: daemon/internal/app/site_registry.go.
use lara_nux.Base.{
  Bool, true, false, not, List, [], ◌∷◌, ◌++◌, some, ◌≡◌, refl, ◌⊎◌, inl, inr, arith, ap, ◌∙◌, All,
  is_empty, if◌then◌else◌,
}
use lara_nux.Text.{Text, Unicode, codes, trim_space, to_lower, join_path, equal_fold}
use lara_nux.Effect.Fault.{Error, Result, ok, err, is, not_exist, Result-cases}
use lara_nux.World.{Os, StateFile, StateLaws, FileInfo}
use lara_nux.Runtimes.Version.{normalize_php_version}
use lara_nux.Sites.Record.{SiteRecord, SiteRegistrationInput, SiteRegistryState}
use lara_nux.Sites.Domain.Shape.{IsLabel, match_label-IsLabel}
use lara_nux.Sites.Domain.Sound.{IsDomain, normalize_domain_iff}
use lara_nux.Sites.Name.{derive_site_name}
use lara_nux.Sites.Name.Label.{derive_site_name-label}
use lara_nux.Sites.Registry.Paths.{normalize_root_path, validate_laravel_path}
use lara_nux.Sites.Registry.Unique.{check_duplicates_iff}
use lara_nux.Sites.Registry.{register}
use lara_nux.Sites.Registry.Register.{register_stores}

abbrev is_not_exist : Error → Bool
is_not_exist e = is not_exist e

-- The kind of what was found is the one that is looked for.
abbrev finds : Bool → Result FileInfo → Bool
finds b (ok info) = if info.is_dir then b else not b
finds b (err e) = false

module _ {σ : Type 0} (os : Os σ) (w : σ) where
  -- The kind of what is found at a path.
  abbrev pub Finds : Bool → Text → Type 0
  Finds is_dir path = (info : FileInfo) × (os.stat path w ≡ ok info) × (info.is_dir ≡ is_dir)

  -- The path behind the symbolic links of the absolute path; the latter if it does not exist.
  abbrev pub Resolves : Text → Text → Type 0
  Resolves given root =
      (absolute : Text) × (os.abs (trim_space given) w ≡ ok absolute)
      × ((os.eval_symlinks absolute w ≡ ok root)
          ⊎ ((e : Error) × (os.eval_symlinks absolute w ≡ err e)
              × (is not_exist e ≡ true)
              × (root ≡ absolute)))

  root-Resolves :
      (given root : Text) → normalize_root_path os w given ≡ ok root → Resolves given root
  unfolding normalize_root_path
  root-Resolves given root h = elim (Result-cases (os.abs (trim_space given) w)) [
    | inl (absolute, e) ↦ elim (Result-cases (os.eval_symlinks absolute w)) [
      | inl (resolved, e') ↦
          let same : resolved ≡ root = ground (arith, h, e, e') in
          (absolute, e, inl (e' ∙ ap ok same))
      | inr (x, e') ↦
          let missing : is_not_exist x ≡ true = ground (arith, h, e, e') in
          let same : root ≡ absolute = ground (arith, h, e, e') in
          (absolute, e, inr (x, e', missing, same))
    ]
    | inr (x, e) ↦ absurd (ground (arith, h, e))
  ]

  found_as : (b : Bool) (path : Text) → finds b (os.stat path w) ≡ true → Finds b path
  found_as b path h = elim (Result-cases (os.stat path w)) [
    | inl (info, e) ↦ (info, e, ground (arith, h, e))
    | inr (x, e) ↦ absurd (ground (arith, h, e))
  ]

  index_path : join_path (codes "public" ∷ codes "index.php" ∷ []) ≡ codes "public/index.php"
  unfolding join_path
  index_path = refl

  path_checked :
      (root : Text)
      → validate_laravel_path os w root ≡ ok tt
      → Finds true root
        × Finds false (join_path (root ∷ codes "artisan" ∷ []))
        × Finds false (join_path (root ∷ codes "public/index.php" ∷ []))
        × Finds false (join_path (root ∷ codes "composer.json" ∷ []))
  unfolding validate_laravel_path
  path_checked root h = (
    found_as true root (ground (arith, h)),
    found_as false (join_path (root ∷ codes "artisan" ∷ [])) (ground (arith, h)),
    rw (← index_path) (
        found_as false (join_path (root ∷ join_path (codes "public" ∷ codes "index.php" ∷ []) ∷ []))
          (ground (arith, h))),
    found_as false (join_path (root ∷ codes "composer.json" ∷ [])) (ground (arith, h)),
  )

-- What a registration has done, and what it has found.
pub record IsRegistered {σ : Type 0} (os : Os σ) (file : StateFile σ SiteRegistryState)
    (laws : StateLaws os file) ⦃u : Unicode⦄ (input : SiteRegistrationInput) (w w' : σ)
    (site : SiteRecord) : Type 0 where
  pub stored : List SiteRecord
  pub before : laws.content w ≡ some (record { sites = stored })
  pub behind : laws.content w' ≡ some (record { sites = stored ++ site ∷ [] })
  pub free :
      All
        (λ s. (equal_fold s.name site.name ≡ false) × (equal_fold s.domain site.domain ≡ false))
        stored
  pub rooted : Resolves os w input.root_path site.root_path
  pub directory : Finds os w true site.root_path
  pub artisan : Finds os w false (join_path (site.root_path ∷ codes "artisan" ∷ []))
  pub index : Finds os w false (join_path (site.root_path ∷ codes "public/index.php" ∷ []))
  pub composer : Finds os w false (join_path (site.root_path ∷ codes "composer.json" ∷ []))
  pub labelled : IsLabel site.name
  pub named : site.name ≡ derive_site_name site.root_path
  pub requested : site.domain ≡ (
      if is_empty (to_lower (trim_space input.domain))
      then site.name ++ codes ".test"
      else to_lower (trim_space input.domain))
  pub domain : IsDomain site.domain
  pub version : site.php_version ≡ normalize_php_version input.php_version
  pub created : site.created_at ≡ os.now (file.load w).1
  pub updated : site.updated_at ≡ os.now (file.load w).1

-- A Register that succeeds has put the site it returns behind the stored ones, none of which has
-- its name or its domain, case aside. Its root is what the absolute path of the requested one
-- resolves to, or that path itself if it does not exist, and it is a directory with the files
-- artisan, public/index.php and composer.json. Its name is derived from the root and is a domain
-- label. Its domain is the requested one, trimmed and in lower case, or where that is empty its
-- name with .test behind it, and it is a well formed name below .test. Its version is the
-- normalized one, and it was created and updated at the time behind the load of the state.
pub register-IsRegistered :
    {σ : Type 0} (os : Os σ) (file : StateFile σ SiteRegistryState) (laws : StateLaws os file)
    ⦃u : Unicode⦄ (input : SiteRegistrationInput) (w : σ) (site : SiteRecord)
    → (register os file input w).0 ≡ ok site
    → IsRegistered os file laws input w (register os file input w).1 site
register-IsRegistered os file laws input w site h =
    let r = register_stores os file laws input w site h in
    let (directory, artisan, index, composer) = path_checked os w site.root_path r.checked in
    let (requested, domain) =
      (normalize_domain_iff input.domain site.name site.domain).0 r.resolved in
    record {
      stored = r.stored;
      before = r.before;
      behind = r.behind;
      free = (check_duplicates_iff site.name site.domain r.stored).0 r.fresh;
      rooted = root-Resolves os w input.root_path site.root_path r.rooted;
      directory = directory;
      artisan = artisan;
      index = index;
      composer = composer;
      labelled = match_label-IsLabel site.name (rw r.named (derive_site_name-label site.root_path));
      named = r.named;
      requested = requested;
      domain = domain;
      version = r.version;
      created = r.created;
      updated = r.updated;
    }
