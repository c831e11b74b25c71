-- ===== src/Resolver/Ownership.antt =====
-- The resolver's methods touch nothing that they do not own, whatever calls of the host fail:
-- daemon/internal/host/ubuntu/resolved/manager.go.
use lara_nux.Base.{false, List, [], ◌∷◌, Option, none, some, ◌≡◌, refl, arith, sort, is_empty}
use lara_nux.Text.{Text, Unicode, codes, text_lt}
use lara_nux.Effect.Fault.{ok, is_ok, value_or}
use lara_nux.Effect.Action.{◌>>=◌, check, map_error}
use lara_nux.Machine.Files.{lookup}
use lara_nux.Machine.Calls.{Machine, Environment, glob, read_file, read}
use lara_nux.Machine.Atomically.{read_if_exists}
use lara_nux.Resolver.Stub.{
  ResolverStubSpec, ResolverStatus, Conflict, normalize_spec, is_managed_content,
}
use lara_nux.Resolver.Manager.{
  Manager, reload, claimants_at, external_claimants, inspect_normalized, inspect, status_of_stub,
  with_claimants, ensure_test_stub, remove_managed_stub, remove_stub,
}

module _ (env : Environment) where
  pub files-read_if_exists :
      (path : Text) (m : Machine) → (read_if_exists env path m).1.files ≡ m.files
  unfolding read_if_exists read_file
  files-read_if_exists path m = ground arith

  -- What is read is the file.
  pub read-present :
      (path payload : Text) (m : Machine) (found : Option Text)
      → lookup path m.files ≡ some payload
      → (read_if_exists env path m).0 ≡ ok found
      → found ≡ some payload
  unfolding read_if_exists read_file
  read-present path payload m found h r = ground (arith, env.fault_present m.trace (read path))

  module _ (manager : Manager) where
    pub files-reload : (m : Machine) → (reload env manager m).1.files ≡ m.files
    unfolding reload
    files-reload m = ground arith

    module _ ⦃u : Unicode⦄ where
      files-claimants_at :
          (domain : Text) (paths : List Text) (m : Machine)
          → (claimants_at env manager domain paths m).1.files ≡ m.files
      unfolding claimants_at ◌>>=◌ map_error
      files-claimants_at domain [] m = refl
      files-claimants_at domain (path ∷ paths) m =
          let m' = (read_if_exists env path m).1 in
          ground (
            arith,
            files-claimants_at domain paths m,
            files-claimants_at domain paths m',
            files-read_if_exists path m,
          )

      pub files-inspect_normalized :
          (spec : ResolverStubSpec) (m : Machine)
          → (inspect_normalized env manager spec m).1.files ≡ m.files
      unfolding inspect_normalized external_claimants ◌>>=◌ map_error check
      files-inspect_normalized spec m =
          let m' = (read_if_exists env manager.stub_path m).1 in
          let paths =
            sort text_lt
              (manager.main_config_path ∷ glob env manager.drop_in_dir (codes ".conf") m') in
          ground (
            arith,
            files-read_if_exists manager.stub_path m,
            files-claimants_at spec.domain paths m',
          )

      foreign-conflicts :
          (spec : ResolverStubSpec) (payload : Text) (claimants : List Conflict)
          → is_managed_content payload ≡ false
          → is_empty
              (with_claimants spec (status_of_stub manager spec (some payload)) claimants).conflicts
            ≡ false
      unfolding with_claimants status_of_stub
      foreign-conflicts spec payload claimants h = ground (arith, h)

      -- A stub of another owner is a conflict of every inspection that succeeds.
      inspect-foreign :
          (spec : ResolverStubSpec) (payload : Text) (m : Machine) (status : ResolverStatus)
          → lookup manager.stub_path m.files ≡ some payload
          → is_managed_content payload ≡ false
          → (inspect_normalized env manager spec m).0 ≡ ok status
          → is_empty status.conflicts ≡ false
      unfolding inspect_normalized ◌>>=◌ map_error check
      inspect-foreign spec payload m status found h r =
          let m' = (read_if_exists env manager.stub_path m).1 in
          let seen = value_or none (read_if_exists env manager.stub_path m).0 in
          let claims = value_or [] (external_claimants env manager spec.domain m').0 in
          ground (
            arith,
            read-present manager.stub_path payload m seen found,
            foreign-conflicts spec payload claims h,
          )

      -- If the resolver stub is there without the marker of the daemon, then EnsureTestStub and
      -- RemoveManagedStub both fail and change no file, whatever calls of the host fail.
      pub foreign_stub_kept :
          (spec : ResolverStubSpec) (payload : Text) (m : Machine)
          → lookup manager.stub_path m.files ≡ some payload
          → is_managed_content payload ≡ false
          → (is_ok (ensure_test_stub env manager spec m).0 ≡ false)
            × ((ensure_test_stub env manager spec m).1.files ≡ m.files)
            × (is_ok (remove_managed_stub env manager m).0 ≡ false)
            × ((remove_managed_stub env manager m).1.files ≡ m.files)
      unfolding ensure_test_stub inspect remove_managed_stub remove_stub ◌>>=◌
      foreign_stub_kept spec payload m found h =
          let spec' = normalize_spec spec in
          let inspected = inspect_normalized env manager (normalize_spec spec') m in
          let status = value_or (status_of_stub manager spec' none) inspected.0 in
          let seen = value_or none (read_if_exists env manager.stub_path m).0 in
          ground (
            arith,
            files-inspect_normalized (normalize_spec spec') m,
            inspect-foreign (normalize_spec spec') payload m status found h,
            files-read_if_exists manager.stub_path m,
            read-present manager.stub_path payload m seen found,
            h,
          )
