-- ===== src/Caddy/Manager/Commands.antt =====
-- `Manager`, `Validate` and `reload` of daemon/internal/host/ubuntu/caddy/manager.go.
use lara_nux.Base.{List, [], ◌∷◌, ◌++◌, Option, none, some, ◌≡◌, arith}
use lara_nux.Text.{Text, lit, trim_space}
use lara_nux.Effect.Fault.{Error, Result, ok, err, plain}
use lara_nux.Effect.Action.{Action, ◌>>=◌, lift}
use lara_nux.Machine.Calls.{Machine, Environment, run_command}
use lara_nux.Machine.Atomically.View.{view}

pub record Manager : Type 0 where
  pub sites_dir : Text
  pub root_config_path : Text

-- The error of a command that failed, with its output.
abbrev pub failed_command : Text → Text × Option Error → Result (Unit {0})
failed_command context (output, none) = ok tt
failed_command context (output, some e) =
    err (plain (context ++ (e.message ++ (lit " (" ++ (trim_space output ++ lit ")")))))

module _ (env : Environment) (manager : Manager) where
  abbrev pub validate_command : List Text
  validate_command =
      lit "caddy"
      ∷ lit "validate"
      ∷ lit "--config"
      ∷ manager.root_config_path
      ∷ lit "--adapter"
      ∷ lit "caddyfile"
      ∷ []

  abbrev pub reload_command : List Text
  reload_command = lit "systemctl" ∷ lit "reload" ∷ lit "caddy" ∷ []

  -- `Validate`
  unfoldable pub validate : Action Machine (Unit {0})
  unfolding ◌>>=◌ run_command
  validate = do
    answer ← run_command env validate_command
    lift (failed_command (lit "validate caddy config: ") answer)

  -- `reload`
  unfoldable pub reload : Action Machine (Unit {0})
  unfolding ◌>>=◌ run_command
  reload = do
    answer ← run_command env reload_command
    lift (failed_command (lit "reload caddy: ") answer)

  pub view-validate : (q : Text) (m : Machine) → view q (validate m).1 ≡ view q m
  unfolding validate
  view-validate q m = ground arith

  pub view-reload : (q : Text) (m : Machine) → view q (reload m).1 ≡ view q m
  unfolding reload
  view-reload q m = ground arith
