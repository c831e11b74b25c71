-- ===== src/Runtimes/Registry/Paths.antt =====
-- `normalizeExecutablePath` of daemon/internal/app/php_registry.go.
use lara_nux.Base.{not, ◌++◌, is_empty}
use lara_nux.Text.{Text, lit, trim_space}
use lara_nux.Effect.Fault.{Error, Result, ok, err, ◌>>=◌, ◌>>◌, require, sentinel, unverifiable_php}
use lara_nux.World.{Os}

abbrev pub unverifiable : Text → Error
unverifiable reason = sentinel unverifiable_php (lit "unverifiable php runtime: " ++ reason)

explained : {A : Type 0} → Text → Result A → Result A
explained reason (ok a) = ok a
explained reason (err e) = err (unverifiable (reason ++ e.message))

unfoldable pub normalize_executable_path : {σ : Type 0} → Os σ → σ → Text → Result Text
unfolding explained
normalize_executable_path os w path = do
  let trimmed = trim_space path
  require (not (is_empty trimmed)) (unverifiable (lit "php binary path is required"))
  abs_path ← explained (lit "resolve binary path: ") (os.abs trimmed w)
  info ← explained (lit "inspect binary path: ") (os.stat abs_path w)
  require (not info.is_dir) (unverifiable (abs_path ++ lit " is a directory"))
  require info.is_executable (unverifiable (abs_path ++ lit " is not executable"))
  ok abs_path
