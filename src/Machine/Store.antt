-- ===== src/Machine/Store.antt =====
-- `loadStateFile` and `saveStateFile`: daemon/internal/app/state_store.go.
pub mod Laws
use lara_nux.Base.{
  Bool, true, false, List, [], ◌∷◌, ◌++◌, Option, none, some, ◌≡◌, ◌≢◌, refl, arith, if◌then◌else◌,
  is_empty,
}
use lara_nux.Text.{Text, codes, lit, dir_name, text_eq, text_eq_iff, text_eq_refl}
use lara_nux.Effect.Fault.{Error, Result, ok, err, is, is_ok, wrap, not_exist, plain}
use lara_nux.Effect.Action.{Action, ◌>>=◌, ◌>>◌, map_error, try, lift}
use lara_nux.World.{Os, StateFile, StateLaws}
use lara_nux.Machine.Files.{
  lookup, put, without, lookup-put, lookup-without, text_eq-append, text_eq_symm,
}
use lara_nux.Machine.Calls.{
  Machine, Environment, read_file, write_file, rename_file, mkdir_all, machine_os, Call,
}

-- `encoding/json` on one state type: what is encoded is decoded again, and is never empty.
pub record Codec (S : Type 0) : Type 0 where
  pub blank : S
  pub decode : Text → Result S
  pub encode : S → Text
  pub decode-encode : (s : S) → decode (encode s) ≡ ok s
  pub encode_ne_nil : (s : S) → encode s ≢ []

module _ {S : Type 0} (env : Environment) (codec : Codec S) (path : Text) where
  in_file : Text → Error → Error
  in_file context e = wrap (context ++ (path ++ lit ": ")) e

  decoded : Text → Result S
  unfolding in_file
  decoded payload = if is_empty payload then ok codec.blank else elim (codec.decode payload) [
    | ok s ↦ ok s
    | err e ↦ err (in_file (lit "decode state file ") e)
  ]

  after_read : Result Text → Result S
  unfolding decoded is
  after_read (ok payload) = decoded payload
  after_read (err e) =
      if is not_exist e then ok codec.blank else err (in_file (lit "read state file ") e)

  -- `loadStateFile`
  unfoldable pub load_state_file : Action Machine S
  unfolding after_read read_file
  load_state_file m = let (r, m') = read_file env path m in (after_read r, m')

  abbrev temp_path : Text
  temp_path = path ++ codes ".tmp"

  -- `saveStateFile`
  unfoldable pub save_state_file : S → Action Machine (Unit {0})
  unfolding in_file ◌>>=◌ map_error mkdir_all write_file rename_file
  save_state_file s = do
    map_error (in_file (lit "create state directory for ")) (mkdir_all env (dir_name path))
    map_error (in_file (lit "write state file ")) (write_file env temp_path (codec.encode s))
    map_error (in_file (lit "commit state file ")) (rename_file env temp_path path)

  abbrev pub state_file : StateFile Machine S
  state_file = record { load = load_state_file; save = save_state_file }

  -- The state that the file's payload stands for, if it can be decoded.
  state_of : Option Text → Option S
  unfolding decoded
  state_of none = some codec.blank
  state_of (some payload) = elim (decoded payload) [ ok s ↦ some s | err e ↦ none ]

  unfoldable pub file_content : Machine → Option S
  unfolding state_of lookup
  file_content m = state_of (lookup path m.files)
