-- ===== src/Machine/Calls.antt =====
-- The calls of `os`, `filepath` and `os/exec` on the host. Whether a call fails, what a failed
-- write leaves, and what a command answers, is up to the environment, which sees the files and
-- every call made before.
use lara_nux.Base.{ℕ, Bool, false, ◌&&◌, List, [], ◌∷◌, ◌++◌, Option, none, some, filter, not, ◌≡◌}
use lara_nux.Text.{Text, lit, has_prefix, has_suffix, contains, trim_prefix, slash}
use lara_nux.Effect.Fault.{Error, Result, ok, err, sentinel, is, not_exist}
use lara_nux.Effect.Action.{Action}
use lara_nux.World.{Os, FileInfo}
use lara_nux.Machine.Files.{Files, lookup, put, without, paths}

-- A command is its name and its arguments.
pub data Call : Type 0 where
  read : Text → Call
  write : Text → Text → Call
  rename : Text → Text → Call
  remove : Text → Call
  make_dir : Text → Call
  change_mode : Text → Call
  run : List Text → Call
  random : Call

-- The calls are in `trace`, the last one first.
pub record Machine : Type 0 where
  pub files : Files
  pub trace : List Call

abbrev pub means_missing : Option Error → Bool
means_missing none = false
means_missing (some e) = is not_exist e

pub record Environment : Type 0 where
  -- The error of a call on the file system, apart from a missing file.
  pub fault : List Call → Call → Option Error
  -- A file that is there is never reported as missing.
  pub fault_present : (t : List Call) (call : Call) → means_missing (fault t call) ≡ false
  -- What a write that failed has left at its path.
  pub torn : List Call → Text → Text
  -- `CombinedOutput`, and the error if the command failed.
  pub answer : Files → List Call → List Text → Text × Option Error
  pub done : List Call → Option Error
  pub now : List Call → ℕ
  pub stat : Files → List Call → Text → Result FileInfo
  pub abs : Text → Result Text
  pub eval_symlinks : Files → List Call → Text → Result Text
  pub bytes : List Call → Result (List ℕ)

abbrev pub missing : Text → Error
missing path = sentinel not_exist (path ++ lit ": no such file or directory")

-- The call is on the trace from here on.
abbrev pub made : Call → Machine → Machine
made call m = record m { trace = call ∷ m.trace }

-- A result for a file that may be missing.
abbrev pub or_missing : Text → Option Text → Result Text
or_missing path none = err (missing path)
or_missing path (some x) = ok x

module _ (env : Environment) where
  -- The error of a call, or what it does.
  abbrev pub attempt : {A : Type 0} → Call → (Machine → Result A × Machine) → Action Machine A
  attempt call act m = elim (env.fault m.trace call) [
    | none ↦ act (made call m)
    | some e ↦ (err e, made call m)
  ]

  -- `os.ReadFile`
  unfoldable pub read_file : Text → Action Machine Text
  unfolding lookup
  read_file path = attempt (read path) (λ m. (or_missing path (lookup path m.files), m))

  -- `os.WriteFile`
  unfoldable pub write_file : Text → Text → Action Machine (Unit {0})
  unfolding put
  write_file path content m =
      let m' = made (write path content) m in
      elim (env.fault m.trace (write path content)) [
        | none ↦ (ok tt, record m' { files = put path content m.files })
        | some e ↦ (err e, record m' { files = put path (env.torn m.trace path) m.files })
      ]

  renamed : Text → Text → Option Text → Machine → Result (Unit {0}) × Machine
  unfolding put
  renamed from to none m = (err (missing from), m)
  renamed from to (some x) m = (ok tt, record m { files = put to x (without from m.files) })

  -- `os.Rename`
  unfoldable pub rename_file : Text → Text → Action Machine (Unit {0})
  unfolding renamed lookup
  rename_file from to = attempt (rename from to) (λ m. renamed from to (lookup from m.files) m)

  removed : Text → Option Text → Machine → Result (Unit {0}) × Machine
  unfolding without
  removed path none m = (err (missing path), m)
  removed path (some x) m = (ok tt, record m { files = without path m.files })

  -- `os.Remove`
  unfoldable pub remove_file : Text → Action Machine (Unit {0})
  unfolding removed lookup
  remove_file path = attempt (remove path) (λ m. removed path (lookup path m.files) m)

  -- `os.MkdirAll` and `os.Chmod` change no file's content.
  unfoldable pub mkdir_all : Text → Action Machine (Unit {0})
  mkdir_all path = attempt (make_dir path) (λ m. (ok tt, m))

  unfoldable pub chmod : Text → Action Machine (Unit {0})
  chmod path = attempt (change_mode path) (λ m. (ok tt, m))

  -- `commandRunner.Run`
  unfoldable pub run_command : List Text → Action Machine (Text × Option Error)
  run_command command m = (ok (env.answer m.files m.trace command), made (run command) m)

  -- The files of a directory with a suffix: `filepath.Glob(dir + "/*" + suffix)`.
  unfoldable pub glob : Text → Text → Machine → List Text
  unfolding filter has_prefix has_suffix contains trim_prefix paths
  glob dir suffix m =
      filter
        (λ path.
          has_prefix (dir ++ slash ∷ []) path
          && has_suffix suffix path
          && not (contains (slash ∷ []) (trim_prefix (dir ++ slash ∷ []) path)))
        (paths m.files)

  -- The queries of the services are those of this host.
  unfoldable pub machine_os : Os Machine
  machine_os = record {
    done = λ m. env.done m.trace;
    now = λ m. env.now m.trace;
    stat = λ path m. env.stat m.files m.trace path;
    abs = λ path m. env.abs path;
    eval_symlinks = λ path m. env.eval_symlinks m.files m.trace path;
    entropy = λ m. (env.bytes m.trace, made random m);
  }
