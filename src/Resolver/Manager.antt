-- ===== src/Resolver/Manager.antt =====
-- The methods of `Manager` in daemon/internal/host/ubuntu/resolved/manager.go.
use lara_nux.Base.{
  true, false, not, List, [], ◌∷◌, ◌++◌, Option, none, some, is_empty, if◌then◌else◌, sort,
}
use lara_nux.Text.{Text, Unicode, codes, lit, text_eq, text_lt, trim_space, dir_name}
use lara_nux.Effect.Fault.{
  Error, Result, ok, err, sentinel, wrap, plain, require, resolver_conflict, managed_asset_conflict,
}
use lara_nux.Effect.Action.{Action, ◌>>=◌, ◌>>◌, pure, lift, map_error, ignore, on_failure, check}
use lara_nux.Machine.Calls.{Machine, Environment, glob, mkdir_all, run_command}
use lara_nux.Machine.Atomically.{read_if_exists, remove_if_exists, write_atomically, restore_file}
use lara_nux.Resolver.Stub.{
  Conflict, ResolverStubSpec, ResolverStatus, normalize_spec, owns_domain, render_stub,
  is_managed_content,
}

pub record Manager : Type 0 where
  pub main_config_path : Text
  pub drop_in_dir : Text
  pub stub_path : Text

-- `fmt.Errorf("...: %v (%s)", err, strings.TrimSpace(output))` if a command failed.
abbrev pub failed_command : Text → Text × Option Error → Result (Unit {0})
failed_command context (output, none) = ok tt
failed_command context (output, some e) =
    err (plain (context ++ (e.message ++ (lit " (" ++ (trim_space output ++ lit ")")))))

abbrev claimant : Text → Text → Conflict
claimant domain path = record {
  resource = path;
  owner = lit "external";
  summary =
      lit "Resolver config "
      ++ (path ++ (lit " already claims routing for ~" ++ (domain ++ lit ".")));
  remediation =
      lit "Remove the ~"
      ++ (domain
          ++ (lit " claim from "
              ++ (path ++ lit " or let Lara Nux manage a different development domain.")));
}

abbrev foreign_stub : Text → Text → Conflict
foreign_stub path domain = record {
  resource = path;
  owner = lit "external";
  summary = lit "Existing resolver stub at " ++ (path ++ lit " is not owned by Lara Nux.");
  remediation =
      lit "Move or merge the external resolver drop-in before Lara Nux manages ~"
      ++ (domain ++ lit ".");
}

module _ ⦃u : Unicode⦄ where
  -- A configuration claims the domain, if it exists.
  claim_of : Text → Text → Option Text → List Conflict → List Conflict
  unfolding owns_domain
  claim_of domain path none rest = rest
  claim_of domain path (some payload) rest =
      if owns_domain payload domain then claimant domain path ∷ rest else rest

  abbrev available : Manager → ResolverStubSpec → ResolverStatus
  available manager spec = record {
    managed = false;
    stub_path = manager.stub_path;
    domain = spec.domain;
    address = spec.address;
    owner = lit "available";
    conflicts = [];
    summary =
        lit "Resolver domain ~" ++ (spec.domain ++ lit " is available for Lara Nux management.");
    remediation = [];
  }

  -- The status by the stub that is there.
  unfoldable pub status_of_stub : Manager → ResolverStubSpec → Option Text → ResolverStatus
  unfolding is_managed_content render_stub trim_space text_eq
  status_of_stub manager spec none = available manager spec
  status_of_stub manager spec (some payload) =
      if not (is_managed_content payload)
      then record (available manager spec) {
        owner = lit "external";
        conflicts = foreign_stub manager.stub_path spec.domain ∷ [];
      }
      else if text_eq (trim_space payload) (trim_space (render_stub spec))
      then record (available manager spec) {
        managed = true;
        owner = lit "lara-nux";
        summary =
            lit "Resolver domain ~" ++ (spec.domain ++ lit " is already managed by Lara Nux.");
      }
      else record (available manager spec) {
        owner = lit "lara-nux";
        summary =
            lit "Resolver domain ~"
            ++ (spec.domain ++ lit " is managed by Lara Nux with drifted content.");
      }

  -- The conflicts of the claimants come behind the stub's own, and any conflict takes the stub away.
  unfoldable pub with_claimants : ResolverStubSpec → ResolverStatus → List Conflict → ResolverStatus
  with_claimants spec status claimants =
      let conflicts = status.conflicts ++ claimants in
      if is_empty conflicts then record status { conflicts = conflicts } else record status {
        managed = false;
        owner = lit "conflict";
        conflicts = conflicts;
        summary =
            lit "Resolver ownership for ~"
            ++ (spec.domain ++ lit " conflicts with existing host configuration.");
        remediation =
            lit "Remove or update the conflicting resolver drop-ins before Lara Nux manages ~"
            ++ (spec.domain ++ lit ".");
      }

module _ (env : Environment) (manager : Manager) where
  -- `reload`
  unfoldable pub reload : Action Machine (Unit {0})
  unfolding ◌>>=◌ run_command
  reload = do
    answer ← run_command env (lit "systemctl" ∷ lit "restart" ∷ lit "systemd-resolved" ∷ [])
    lift (failed_command (lit "restart systemd-resolved: ") answer)
    flushed ← run_command env (lit "resolvectl" ∷ lit "flush-caches" ∷ [])
    lift (failed_command (lit "flush resolved caches: ") flushed)

  -- What follows the inspection that found no conflict.
  unfoldable pub write_stub : ResolverStubSpec → Action Machine (Unit {0})
  unfolding ◌>>=◌ map_error on_failure ignore read_if_exists mkdir_all write_atomically restore_file
      reload render_stub dir_name
  write_stub spec = do
    previous ←
        map_error (wrap (lit "read resolver stub backup: ")) (read_if_exists env manager.stub_path)
    map_error (wrap (lit "create resolver drop-in directory: "))
        (mkdir_all env (dir_name manager.stub_path))
    map_error (wrap (lit "write resolver stub: "))
        (write_atomically env manager.stub_path (render_stub spec))
    on_failure
        (ignore (restore_file env (write_atomically env) manager.stub_path previous)
          >> ignore reload)
        (map_error (wrap (lit "apply resolver stub: ")) reload)

  module _ ⦃u : Unicode⦄ where
    -- The loop of `externalClaimants`, which passes over the stub.
    unfoldable pub claimants_at : Text → List Text → Action Machine (List Conflict)
    unfolding ◌>>=◌ claim_of map_error read_if_exists text_eq
    claimants_at domain [] = pure []
    claimants_at domain (path ∷ paths) =
        let rest = claimants_at domain paths in
        if text_eq path manager.stub_path then rest else (do
          payload ←
              map_error (wrap (lit "inspect resolver config " ++ (path ++ lit ": ")))
                (read_if_exists env path)
          conflicts ← rest
          pure (claim_of domain path payload conflicts))

    unfoldable pub external_claimants : Text → Action Machine (List Conflict)
    unfolding claimants_at glob sort text_lt
    external_claimants domain m =
        claimants_at domain
          (sort text_lt (manager.main_config_path ∷ glob env manager.drop_in_dir (codes ".conf") m))
          m

    -- `Inspect`, whose spec is normalized before.
    unfoldable pub inspect_normalized : ResolverStubSpec → Action Machine ResolverStatus
    unfolding ◌>>=◌ check map_error read_if_exists external_claimants status_of_stub with_claimants
    inspect_normalized spec = do
      check (λ m. env.done m.trace)
      payload ←
          map_error (wrap (lit "inspect managed resolver stub: "))
            (read_if_exists env manager.stub_path)
      claimants ← external_claimants spec.domain
      pure (with_claimants spec (status_of_stub manager spec payload) claimants)

    unfoldable pub inspect : ResolverStubSpec → Action Machine ResolverStatus
    unfolding inspect_normalized normalize_spec
    inspect spec = inspect_normalized (normalize_spec spec)

    unfoldable pub ensure_test_stub : ResolverStubSpec → Action Machine ResolverStatus
    unfolding ◌>>=◌ inspect inspect_normalized write_stub normalize_spec
    ensure_test_stub spec0 = do
      let spec = normalize_spec spec0
      status ← inspect spec
      lift (
          require (is_empty status.conflicts)
            (sentinel resolver_conflict (lit "resolver conflict detected: " ++ status.summary)))
      write_stub spec
      inspect spec

  unfoldable pub remove_stub : Option Text → Action Machine (Unit {0})
  unfolding ◌>>=◌ map_error on_failure ignore remove_if_exists write_atomically reload
      is_managed_content
  remove_stub none = pure tt
  remove_stub (some payload) = do
    lift (
        require (is_managed_content payload) (
          sentinel managed_asset_conflict (
            lit "managed asset conflict: resolver stub at "
            ++ (manager.stub_path ++ lit " is not owned by Lara Nux"))))
    map_error (wrap (lit "remove resolver stub: ")) (remove_if_exists env manager.stub_path)
    on_failure (ignore (write_atomically env manager.stub_path payload) >> ignore reload)
        (map_error (wrap (lit "reload resolver after removing managed stub: ")) reload)

  unfoldable pub remove_managed_stub : Action Machine (Unit {0})
  unfolding ◌>>=◌ read_if_exists remove_stub
  remove_managed_stub = read_if_exists env manager.stub_path >>= remove_stub
