-- ===== src/Tests/Worlds.antt =====
-- The concrete worlds of the tests: a registry in memory, and hosts with a few files.
use lara_nux.Base.{true, false, List, [], ◌∷◌, ◌++◌, Option, none, some, refl, if◌then◌else◌}
use lara_nux.Text.{Text, Unicode, codes, text_eq, has_suffix}
use lara_nux.Effect.Fault.{Error, ok, err, plain}
use lara_nux.Effect.Action.{Action}
use lara_nux.Effect.Atomic.{Keeps}
use lara_nux.World.{Os, FileInfo, StateFile, StateLaws}
use lara_nux.Machine.Calls.{Environment}
use lara_nux.Machine.Atomically.View.{Writable}

-- No letters but those of ASCII, and `%q` with plain quotes.
instance abbrev pub ascii_only : Unicode
ascii_only = record { lower = λ c. c; fold = λ c. c; quote = λ s. codes "\"" ++ (s ++ codes "\"") }

abbrev plain_file : FileInfo
plain_file = record { is_dir = false; is_socket = false; is_executable = true }

abbrev directory : FileInfo
directory = record { is_dir = true; is_socket = false; is_executable = true }

-- Whatever ends like a file is a file, every other path is a directory.
unfoldable pub ending : Text → FileInfo
unfolding has_suffix
ending path =
    if has_suffix (codes ".php") path
    then plain_file
    else if has_suffix (codes "artisan") path
    then plain_file
    else if has_suffix (codes ".json") path
    then plain_file
    else if has_suffix (codes "php8.3") path
    then plain_file
    else directory

-- The operating system beside a registry that is held in memory.
abbrev pub memory_os : {S : Type 0} → Os S
memory_os = record {
  done = λ w. none;
  now = λ w. 5;
  stat = λ path w. ok (ending path);
  abs = λ path w. ok path;
  eval_symlinks = λ path w. ok path;
  entropy = λ w. (ok (1 ∷ 255 ∷ []), w);
}

abbrev pub memory_file : {S : Type 0} → StateFile S S
memory_file = record { load = λ w. (ok w, w); save = λ s w. (ok tt, s) }

abbrev pub memory_laws : {S : Type 0} → StateLaws (memory_os {S = S}) (memory_file {S = S})
memory_laws = record {
  content = λ w. some w;
  load-content = λ w s h. cc;
  content-load = λ w. refl;
  content-save = λ s w h. refl;
  content-save_failed = λ s w h. cc;
  content-entropy = λ w. refl;
}

-- A registry whose file cannot be written.
abbrev pub full_file : {S : Type 0} → StateFile S S
full_file = record {
  load = λ w. (ok w, w);
  save = λ s w. (err (plain (codes "no space left on device")), w);
}

abbrev pub full_laws : {S : Type 0} → StateLaws (memory_os {S = S}) (full_file {S = S})
full_laws = record {
  content = λ w. some w;
  load-content = λ w s h. cc;
  content-load = λ w. refl;
  content-save = λ s w h. cc;
  content-save_failed = λ s w h. refl;
  content-entropy = λ w. refl;
}

-- `php -r 'echo PHP_VERSION'` of an 8.3.
abbrev pub says_83 : {S : Type 0} → Text → Action S (Text × Option Error)
says_83 path w = (ok (codes " 8.3\n", none), w)

abbrev pub says-Keeps :
    {S : Type 0} (path : Text) → Keeps {σ = S} (memory_laws {S = S}).content (says_83 path)
says-Keeps path = record { at = λ w. refl }

-- A host whose file system works, and whose commands answer by a test on their words.
abbrev pub host_where : (List Text → Option Error) → Environment
host_where refuses = record {
  fault = λ t call. none;
  fault_present = λ t call. refl;
  torn = λ t path. [];
  answer = λ files t command. (codes "output", refuses command);
  done = λ t. none;
  now = λ t. 5;
  stat = λ files t path. ok directory;
  abs = λ path. ok path;
  eval_symlinks = λ files t path. ok path;
  bytes = λ t. ok (1 ∷ 2 ∷ []);
}

abbrev pub host-Writable : (refuses : List Text → Option Error) → Writable (host_where refuses)
host-Writable refuses = record {
  writes = λ t path payload. refl;
  renames = λ t from to. refl;
  removes = λ t path. refl;
  modes = λ t path. refl;
}

-- The second word of a command is refused.
abbrev pub refuses_word : Text → List Text → Option Error
refuses_word word [] = none
refuses_word word (name ∷ []) = none
refuses_word word (name ∷ verb ∷ args) =
    if text_eq verb word then some (plain (codes "exit status 1")) else none

abbrev pub willing : Environment
willing = host_where (λ command. none)

abbrev pub unwilling : Text → Environment
unwilling word = host_where (refuses_word word)
