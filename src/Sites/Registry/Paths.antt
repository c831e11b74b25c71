-- ===== src/Sites/Registry/Paths.antt =====
-- `normalizeRootPath` and `ValidateLaravelPath` of daemon/internal/app/site_registry.go.
use lara_nux.Base.{not, List, [], ◌∷◌, ◌++◌, if◌then◌else◌, is_empty}
use lara_nux.Text.{Text, codes, lit, trim_space, join_path}
use lara_nux.Effect.Fault.{
  Error, Result, ok, err, ◌>>=◌, ◌>>◌, require, sentinel, is, invalid_laravel_path, not_exist,
}
use lara_nux.World.{Os, FileInfo}

abbrev invalid : Text → Error
invalid reason = sentinel invalid_laravel_path (lit "invalid laravel path: " ++ reason)

-- `fmt.Errorf("%w: … %v", ErrInvalidLaravelPath, err)` for a failed call.
explained : {A : Type 0} → Text → Result A → Result A
explained reason (ok a) = ok a
explained reason (err e) = err (invalid (reason ++ e.message))

abbrev required_files : List Text
required_files =
    codes "artisan"
    ∷ join_path (codes "public" ∷ codes "index.php" ∷ [])
    ∷ codes "composer.json"
    ∷ []

module _ {σ : Type 0} (os : Os σ) (w : σ) where
  missing_as : Text → Result FileInfo → Result FileInfo
  missing_as required (ok info) = ok info
  missing_as required (err e) = err (invalid (lit "missing " ++ required))

  check_required : Text → List Text → Result (Unit {0})
  unfolding missing_as
  check_required root_path [] = ok tt
  check_required root_path (required ∷ rest) = do
    info ← missing_as required (os.stat (join_path (root_path ∷ required ∷ [])) w)
    require (not info.is_dir) (invalid (lit "expected file at " ++ required))
    check_required root_path rest

  -- `ValidateLaravelPath`
  unfoldable pub validate_laravel_path : Text → Result (Unit {0})
  unfolding explained check_required
  validate_laravel_path root_path = do
    info ← explained (lit "inspect project root: ") (os.stat root_path w)
    require info.is_dir (invalid (root_path ++ lit " is not a directory"))
    check_required root_path required_files

  -- The path behind its symbolic links; a path that does not exist stands for itself.
  resolved_or : Text → Result Text → Result Text
  unfolding is
  resolved_or abs_path (ok resolved) = ok resolved
  resolved_or abs_path (err e) =
      if is not_exist e then ok abs_path else err (invalid (lit "resolve symlinks: " ++ e.message))

  -- `normalizeRootPath`
  unfoldable pub normalize_root_path : Text → Result Text
  unfolding explained resolved_or
  normalize_root_path root_path = do
    let trimmed = trim_space root_path
    require (not (is_empty trimmed)) (invalid (lit "rootPath is required"))
    abs_path ← explained (lit "resolve absolute path: ") (os.abs trimmed w)
    resolved_or abs_path (os.eval_symlinks abs_path w)
