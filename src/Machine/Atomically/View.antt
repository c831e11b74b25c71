-- ===== src/Machine/Atomically/View.antt =====
-- What the calls on files do to the file at one path, where writes, renames, removals and changes
-- of mode do not fail.
use lara_nux.Base.{false, List, ◌∷◌, Option, none, some, ◌≡◌, refl, arith, if◌then◌else◌}
use lara_nux.Text.{Text, text_eq, text_eq_iff, text_eq_refl}
use lara_nux.Effect.Fault.{ok}
use lara_nux.Machine.Files.{Files, put, without, lookup-put, lookup, lookup-without}
use lara_nux.Machine.Calls.{
  Call, Machine, Environment, read, write, rename, remove, change_mode, run_command,
}
use lara_nux.Machine.Atomically.{
  temp, read_if_exists, write_atomically, write_with_mode, restore_file, remove_if_exists,
  ensure_dir_mode,
}

-- The file at a path.
abbrev pub view : Text → Machine → Option Text
view path m = lookup path m.files

-- The file system takes every write, rename, removal and change of mode.
pub record Writable (env : Environment) : Type 0 where
  pub writes : (t : List Call) (path payload : Text) → env.fault t (write path payload) ≡ none
  pub renames : (t : List Call) (from to : Text) → env.fault t (rename from to) ≡ none
  pub removes : (t : List Call) (path : Text) → env.fault t (remove path) ≡ none
  pub modes : (t : List Call) (path : Text) → env.fault t (change_mode path) ≡ none

module _ (env : Environment) where
  pub view-read_if_exists :
      (q path : Text) (m : Machine) → view q (read_if_exists env path m).1 ≡ view q m
  unfolding read_if_exists
  view-read_if_exists q path m = ground arith

  pub read_if_exists-view :
      (path : Text) (m : Machine) (payload : Option Text)
      → (read_if_exists env path m).0 ≡ ok payload
      → view path m ≡ payload
  unfolding read_if_exists
  read_if_exists-view path m payload h = ground (arith, env.fault_present m.trace (read path))

  pub view-ensure_dir_mode :
      (q path : Text) (m : Machine) → view q (ensure_dir_mode env path m).1 ≡ view q m
  unfolding ensure_dir_mode
  view-ensure_dir_mode q path m = ground arith

  pub view-run_command :
      (q : Text) (command : List Text) (m : Machine)
      → view q (run_command env command m).1 ≡ view q m
  unfolding run_command
  view-run_command q command m = refl

module _ (q path : Text) (apart : text_eq (temp path) q ≡ false) where
  -- The file that a renamed temporary file leaves, at the path that is looked at.
  lookup-renamed :
      (payload : Text) (files : Files)
      → lookup q (put path payload (without (temp path) (put (temp path) payload files)))
        ≡ (if text_eq path q then some payload else lookup q files)
  lookup-renamed payload files = ground (
    arith,
    apart,
    lookup-put path payload q (without (temp path) (put (temp path) payload files)),
    lookup-without (temp path) q (put (temp path) payload files),
    lookup-put (temp path) payload q files,
  )

temp_written :
    (path payload : Text) (files : Files)
    → lookup (temp path) (put (temp path) payload files) ≡ some payload
temp_written path payload files =
    ground (arith, lookup-put (temp path) payload (temp path) files, text_eq_refl (temp path))

module _ (env : Environment) (works : Writable env) (q path : Text)
    (apart : text_eq (temp path) q ≡ false) where
  pub view-write_with_mode :
      (payload : Text) (m : Machine)
      → ((write_with_mode env path payload m).0 ≡ ok tt)
        × (view q (write_with_mode env path payload m).1
            ≡ (if text_eq path q then some payload else view q m))
  unfolding write_with_mode
  view-write_with_mode payload m =
      let t1 = write (temp path) payload ∷ m.trace in
      let t2 = change_mode (temp path) ∷ t1 in
      let t3 = rename (temp path) path ∷ t2 in
      ground (
        arith,
        works.writes m.trace (temp path) payload,
        works.modes t1 (temp path),
        works.renames t2 (temp path) path,
        works.modes t3 path,
        temp_written path payload m.files,
        lookup-renamed q path apart payload m.files,
      )

  pub view-write_atomically :
      (payload : Text) (m : Machine)
      → ((write_atomically env path payload m).0 ≡ ok tt)
        × (view q (write_atomically env path payload m).1
            ≡ (if text_eq path q then some payload else view q m))
  unfolding write_atomically
  view-write_atomically payload m =
      let t1 = write (temp path) payload ∷ m.trace in
      ground (
        arith,
        works.writes m.trace (temp path) payload,
        works.renames t1 (temp path) path,
        temp_written path payload m.files,
        lookup-renamed q path apart payload m.files,
      )

  pub view-remove_if_exists :
      (m : Machine)
      → view q (remove_if_exists env path m).1 ≡ (if text_eq path q then none else view q m)
  unfolding remove_if_exists
  view-remove_if_exists m =
      ground (arith, works.removes m.trace path, lookup-without path q m.files, text_eq_iff path q)

  -- A restored file is what it was taken to have been, a file that was missing included.
  pub view-restore_with_mode :
      (previous : Option Text) (m : Machine)
      → view q (restore_file env (write_with_mode env) path previous m).1
        ≡ (if text_eq path q then previous else view q m)
  unfolding restore_file
  view-restore_with_mode none m = view-remove_if_exists m
  view-restore_with_mode (some payload) m = (view-write_with_mode payload m).1

  pub remove_if_exists_ok : (m : Machine) → (remove_if_exists env path m).0 ≡ ok tt
  unfolding remove_if_exists
  remove_if_exists_ok m = ground (arith, works.removes m.trace path)

  pub restore_with_mode_ok :
      (previous : Option Text) (m : Machine)
      → (restore_file env (write_with_mode env) path previous m).0 ≡ ok tt
  unfolding restore_file remove_if_exists
  restore_with_mode_ok none m = ground (arith, works.removes m.trace path)
  restore_with_mode_ok (some payload) m = (view-write_with_mode payload m).0

  pub view-restore_atomically :
      (previous : Option Text) (m : Machine)
      → view q (restore_file env (write_atomically env) path previous m).1
        ≡ (if text_eq path q then previous else view q m)
  unfolding restore_file
  view-restore_atomically none m = view-remove_if_exists m
  view-restore_atomically (some payload) m = (view-write_atomically payload m).1

module _ (env : Environment) where
  -- A write that succeeds has put its payload at the path, whatever calls could have failed.
  pub written-view :
      (q path payload : Text) (m : Machine)
      → (write_with_mode env path payload m).0 ≡ ok tt
      → text_eq (temp path) q ≡ false
      → view q (write_with_mode env path payload m).1
        ≡ (if text_eq path q then some payload else view q m)
  unfolding write_with_mode
  written-view q path payload m h apart =
      ground (arith, lookup-renamed q path apart payload m.files, temp_written path payload m.files)
