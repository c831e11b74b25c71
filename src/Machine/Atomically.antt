-- ===== src/Machine/Atomically.antt =====
-- `readIfExists`, `writeAtomically`, `restoreFile` and `ensureDirMode` of the managers under
-- daemon/internal/host/ubuntu. The manager of Caddy sets the mode of what it writes too.
pub mod View
use lara_nux.Base.{Bool, true, false, List, [], ◌∷◌, ◌++◌, Option, none, some, if◌then◌else◌}
use lara_nux.Text.{Text, codes}
use lara_nux.Effect.Fault.{Error, Result, ok, err, is, not_exist}
use lara_nux.Effect.Action.{Action, ◌>>=◌, ◌>>◌, on_failure, ignore}
use lara_nux.Machine.Calls.{
  Machine, Environment, read_file, write_file, rename_file, remove_file, mkdir_all, chmod,
}

abbrev pub temp : Text → Text
temp path = path ++ codes ".tmp"

-- The payload if the file exists; a missing file is no error.
existing : Result Text → Result (Option Text)
unfolding is
existing (ok payload) = ok (some payload)
existing (err e) = if is not_exist e then ok none else err e

-- A removal of a file that is missing succeeds.
tolerated : Result (Unit {0}) → Result (Unit {0})
unfolding is
tolerated (ok _) = ok tt
tolerated (err e) = if is not_exist e then ok tt else err e

module _ (env : Environment) where
  unfoldable pub read_if_exists : Text → Action Machine (Option Text)
  unfolding existing read_file
  read_if_exists path m = let (r, m') = read_file env path m in (existing r, m')

  -- `os.Remove` with a missing file tolerated.
  unfoldable pub remove_if_exists : Text → Action Machine (Unit {0})
  unfolding tolerated remove_file
  remove_if_exists path m = let (r, m') = remove_file env path m in (tolerated r, m')

  -- The variant of the resolver and of PHP.
  unfoldable pub write_atomically : Text → Text → Action Machine (Unit {0})
  unfolding ◌>>=◌ write_file rename_file
  write_atomically path payload = do
    write_file env (temp path) payload
    rename_file env (temp path) path

  -- The variant of Caddy, which removes the temporary file if it cannot be put in place.
  unfoldable pub write_with_mode : Text → Text → Action Machine (Unit {0})
  unfolding ◌>>=◌ write_file rename_file chmod on_failure ignore remove_file
  write_with_mode path payload = do
    write_file env (temp path) payload
    on_failure (ignore (remove_file env (temp path))) (chmod env (temp path))
    on_failure (ignore (remove_file env (temp path))) (rename_file env (temp path) path)
    chmod env path

  module _ (writer : Text → Text → Action Machine (Unit {0})) where
    unfoldable pub restore_file : Text → Option Text → Action Machine (Unit {0})
    unfolding remove_if_exists
    restore_file path none = remove_if_exists path
    restore_file path (some payload) = writer path payload

  unfoldable pub ensure_dir_mode : Text → Action Machine (Unit {0})
  unfolding ◌>>=◌ mkdir_all chmod
  ensure_dir_mode path = do mkdir_all env path; chmod env path
