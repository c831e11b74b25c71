-- ===== src/Resolver/Rollback.antt =====
-- What `EnsureTestStub` and `RemoveManagedStub` leave on the host where the file system takes
-- every write: daemon/internal/host/ubuntu/resolved/manager.go.
use lara_nux.Base.{
  Bool, true, ◌&&◌, not, List, [], ◌∷◌, is_empty, is_some, false, Option, none, some, ◌≡◌, ap,
  arith, if◌then◌else◌,
}
use lara_nux.Text.{Text, Unicode, codes, lit, text_eq, text_eq_iff, dir_name}
use lara_nux.Effect.Fault.{Result, ok, err, is_ok, value_or}
use lara_nux.Effect.Action.{◌>>=◌, map_error, on_failure, ignore}
use lara_nux.Machine.Files.{lookup}
use lara_nux.Machine.Calls.{Machine, Environment, mkdir_all, run, made, run_command}
use lara_nux.Machine.Atomically.{
  temp, read_if_exists, write_atomically, restore_file, remove_if_exists,
}
use lara_nux.Machine.Atomically.View.{
  view, Writable, view-read_if_exists, read_if_exists-view, view-write_atomically,
  view-restore_atomically, view-remove_if_exists, remove_if_exists_ok,
}
use lara_nux.Resolver.Stub.{ResolverStubSpec, ResolverStatus, normalize_spec, render_stub}
use lara_nux.Resolver.Manager.{
  Manager, reload, inspect_normalized, inspect, write_stub, ensure_test_stub, remove_managed_stub,
  remove_stub,
}
use lara_nux.Resolver.Ownership.{files-reload, files-inspect_normalized}

module _ (env : Environment) (manager : Manager) (q : Text) where
  view-reload : (m : Machine) → view q (reload env manager m).1 ≡ view q m
  view-reload m = ap (lookup q) (files-reload env manager m)

  view-mkdir_all : (path : Text) (m : Machine) → view q (mkdir_all env path m).1 ≡ view q m
  unfolding mkdir_all
  view-mkdir_all path m = ground arith

  view-inspect :
      ⦃u : Unicode⦄ (spec : ResolverStubSpec) (m : Machine)
      → view q (inspect_normalized env manager spec m).1 ≡ view q m
  view-inspect spec m = ap (lookup q) (files-inspect_normalized env manager spec m)

-- `systemctl restart` and `resolvectl flush-caches` are both answered without an error.
abbrev restart : List Text
restart = codes "systemctl" ∷ codes "restart" ∷ codes "systemd-resolved" ∷ []

abbrev flush : List Text
flush = codes "resolvectl" ∷ codes "flush-caches" ∷ []

abbrev is_answered : Environment → List Text → Machine → Bool
is_answered env command m = not (is_some (env.answer m.files m.trace command).1)

abbrev is_reloaded : Environment → Machine → Bool
is_reloaded env m = is_answered env restart m && is_answered env flush (made (run restart) m)

abbrev pub reloaded : Machine → Machine
reloaded m = made (run flush) (made (run restart) m)

abbrev is_free : Result ResolverStatus → Bool
is_free (ok status) = is_empty status.conflicts
is_free (err e) = false

module _ (env : Environment) (manager : Manager) where
  -- The machine behind the writing of the stub.
  abbrev pub stubbed : ResolverStubSpec → Machine → Machine
  stubbed spec m =
      let m1 = (read_if_exists env manager.stub_path m).1 in
      let m2 = (mkdir_all env (dir_name manager.stub_path) m1).1 in
      (write_atomically env manager.stub_path (render_stub spec) m2).1

  -- The stub is written and the resolver loads it.
  abbrev loads : ResolverStubSpec → Machine → Bool
  loads spec m =
      let m1 = (read_if_exists env manager.stub_path m).1 in
      let m2 = (mkdir_all env (dir_name manager.stub_path) m1).1 in
      is_ok (read_if_exists env manager.stub_path m).0
      && (is_ok (mkdir_all env (dir_name manager.stub_path) m1).0
          && (is_ok (write_atomically env manager.stub_path (render_stub spec) m2).0
              && is_reloaded env (stubbed spec m)))

  reload-is_reloaded : (m : Machine) → is_ok (reload env manager m).0 ≡ is_reloaded env m
  unfolding reload ◌>>=◌ run_command lit
  reload-is_reloaded m = ground arith

  reload-reloaded : (m : Machine) → is_reloaded env m ≡ true → (reload env manager m).1 ≡ reloaded m
  unfolding reload ◌>>=◌ run_command lit
  reload-reloaded m h = ground (arith, h)

  write_stub-loads :
      (spec : ResolverStubSpec) (m : Machine)
      → is_ok (write_stub env manager spec m).0 ≡ loads spec m
  unfolding write_stub ◌>>=◌ map_error on_failure ignore
  write_stub-loads spec m = ground (arith, reload-is_reloaded (stubbed spec m))

  write_stub-loaded :
      (spec : ResolverStubSpec) (m : Machine)
      → loads spec m ≡ true
      → (write_stub env manager spec m).1 ≡ reloaded (stubbed spec m)
  unfolding write_stub ◌>>=◌ map_error on_failure ignore
  write_stub-loaded spec m h =
      let m4 = stubbed spec m in ground (arith, h, reload-is_reloaded m4, reload-reloaded m4)

  module _ ⦃u : Unicode⦄ where
    -- The same behind the inspection of the host.
    abbrev pub stub_written : ResolverStubSpec → Machine → Machine
    stub_written spec m = stubbed spec (inspect env manager spec m).1

    abbrev pub is_loaded : ResolverStubSpec → Machine → Bool
    is_loaded spec m =
        is_free (inspect env manager spec m).0 && loads spec (inspect env manager spec m).1

    inspect-view :
        (q : Text) (spec : ResolverStubSpec) (m : Machine)
        → view q (inspect env manager spec m).1 ≡ view q m
    unfolding inspect
    inspect-view q spec m = view-inspect env manager q (normalize_spec spec) m

module _ (env : Environment) (works : Writable env) (manager : Manager) (q : Text)
    (apart : text_eq (temp manager.stub_path) q ≡ false) where
  view-write_stub :
      (spec : ResolverStubSpec) (m : Machine)
      → view q (write_stub env manager spec m).1 ≡ (
          if is_ok (write_stub env manager spec m).0
          then (if text_eq manager.stub_path q then some (render_stub spec) else view q m)
          else view q m)
  unfolding write_stub ◌>>=◌ map_error on_failure ignore
  view-write_stub spec m =
      let stub = manager.stub_path in
      let m1 = (read_if_exists env stub m).1 in
      let previous = value_or none (read_if_exists env stub m).0 in
      let m2 = (mkdir_all env (dir_name stub) m1).1 in
      let m3 = (write_atomically env stub (render_stub spec) m2).1 in
      let m4 = (reload env manager m3).1 in
      let m5 = (restore_file env (write_atomically env) stub previous m4).1 in
      ground (
        arith,
        view-read_if_exists env q stub m,
        read_if_exists-view env stub m previous,
        view-mkdir_all env manager q (dir_name stub) m1,
        view-write_atomically env works q stub apart (render_stub spec) m2,
        view-reload env manager q m3,
        view-restore_atomically env works q stub apart previous m4,
        view-reload env manager q m5,
        text_eq_iff stub q,
      )

  -- Where the file system takes every write, rename, removal and change of mode: if the
  -- inspection finds no conflict, the old stub is read, the directory made and the new stub
  -- written without an error, and the restart of the resolver and the flush of its caches are
  -- both answered without an error, then EnsureTestStub leaves the rendered stub of the
  -- normalized spec at its path and every other file but the temporary one as it was. Otherwise
  -- it leaves the file at every path but the temporary one as it was. It succeeds exactly in the
  -- first case if the inspection behind the reload succeeds too.
  pub stub_all_or_nothing :
      ⦃u : Unicode⦄ (spec : ResolverStubSpec) (m : Machine)
      → (view q (ensure_test_stub env manager spec m).1 ≡ (
          if is_loaded env manager (normalize_spec spec) m && text_eq manager.stub_path q
          then some (render_stub (normalize_spec spec))
          else view q m))
        × (is_ok (ensure_test_stub env manager spec m).0 ≡ (
            is_loaded env manager (normalize_spec spec) m
            && is_ok
                (inspect env manager
                  (normalize_spec spec)
                  (reloaded (stub_written env manager (normalize_spec spec) m))).0))
  unfolding ensure_test_stub ◌>>=◌
  stub_all_or_nothing spec m =
      let spec' = normalize_spec spec in
      let m1 = (inspect env manager spec' m).1 in
      let m2 = (write_stub env manager spec' m1).1 in
      ground (
        arith,
        inspect-view env manager q spec' m,
        view-write_stub spec' m1,
        write_stub-loads env manager spec' m1,
        write_stub-loaded env manager spec' m1,
        inspect-view env manager q spec' m2,
      )

  view-remove_stub :
      (previous : Option Text) (m : Machine)
      → view manager.stub_path m ≡ previous
      → view q (remove_stub env manager previous m).1 ≡ (
          if is_ok (remove_stub env manager previous m).0
          then (if text_eq manager.stub_path q then none else view q m)
          else view q m)
  unfolding remove_stub ◌>>=◌ map_error on_failure ignore
  view-remove_stub none m h = ground (arith, text_eq_iff manager.stub_path q)
  view-remove_stub (some payload) m h =
      let stub = manager.stub_path in
      let m1 = (remove_if_exists env stub m).1 in
      let m2 = (reload env manager m1).1 in
      let m3 = (write_atomically env stub payload m2).1 in
      ground (
        arith,
        view-remove_if_exists env works q stub apart m,
        remove_if_exists_ok env works q stub apart m,
        view-reload env manager q m1,
        view-write_atomically env works q stub apart payload m2,
        view-reload env manager q m3,
        text_eq_iff stub q,
      )

  -- Where the file system takes every write, rename, removal and change of mode,
  -- RemoveManagedStub leaves no stub if it succeeds and the stub as it was if it fails, and no
  -- other file but the temporary one changes.
  pub stub_removal_all_or_nothing :
      (m : Machine)
      → view q (remove_managed_stub env manager m).1 ≡ (
          if is_ok (remove_managed_stub env manager m).0
          then (if text_eq manager.stub_path q then none else view q m)
          else view q m)
  unfolding remove_managed_stub ◌>>=◌
  stub_removal_all_or_nothing m =
      let stub = manager.stub_path in
      let m1 = (read_if_exists env stub m).1 in
      let previous = value_or none (read_if_exists env stub m).0 in
      ground (
        arith,
        view-read_if_exists env q stub m,
        view-read_if_exists env stub stub m,
        read_if_exists-view env stub m previous,
        text_eq_iff stub q,
        view-remove_stub previous m1,
      )
