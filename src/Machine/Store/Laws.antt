-- ===== src/Machine/Store/Laws.antt =====
-- The state file on the host keeps what the registries rely on, whichever calls fail.
use lara_nux.Base.{if◌then◌else◌, false, [], ◌∷◌, some, ◌≡◌, ◌≢◌, refl, arith}
use lara_nux.Text.{Text, codes, text_eq, text_eq_refl}
use lara_nux.Effect.Fault.{ok, is_ok, ok_unit}
use lara_nux.World.{StateLaws}
use lara_nux.Machine.Files.{lookup, lookup-without, text_eq-append}
use lara_nux.Machine.Calls.{Machine, Environment, machine_os, read}
use lara_nux.Machine.Store.{
  Codec, load_state_file, save_state_file, state_file, file_content, temp_path, decoded,
}

module _ {S : Type 0} (env : Environment) (codec : Codec S) (path : Text) where
  load-content :
      (m : Machine) (s : S)
      → (load_state_file env codec path m).0 ≡ ok s
      → file_content env codec path m ≡ some s
  unfolding load_state_file file_content
  load-content m s h = ground (arith, env.fault_present m.trace (read path))

  content-load :
      (m : Machine)
      → file_content env codec path (load_state_file env codec path m).1
        ≡ file_content env codec path m
  unfolding load_state_file file_content
  content-load m = ground arith

  decoded-encode : (s : S) → decoded env codec path (codec.encode s) ≡ ok s
  unfolding decoded
  decoded-encode s = by_payload (codec.encode s) (codec.encode_ne_nil s) (codec.decode-encode s)
    where
      by_payload : (x : Text) → x ≢ [] → codec.decode x ≡ ok s → decoded env codec path x ≡ ok s
      by_payload [] ne e = absurd (ne refl)
      by_payload (c ∷ x) ne e = rw e

  temp_apart : text_eq (temp_path env codec path) path ≡ false
  temp_apart = text_eq-append path (codes ".tmp") (unfold text_eq in refl)

  -- The file holds the encoded state behind a save that succeeds.
  saved_file :
      (s : S) (m : Machine)
      → (save_state_file env codec path s m).0 ≡ ok tt
      → lookup path (save_state_file env codec path s m).1.files ≡ some (codec.encode s)
  unfolding save_state_file
  saved_file s m h =
      let temp = temp_path env codec path in
      ground (arith, temp_apart, text_eq_refl path, text_eq_refl temp)

  -- A save that fails has written to the temporary file at most.
  unsaved_file :
      (s : S) (m : Machine)
      → is_ok (save_state_file env codec path s m).0 ≡ false
      → lookup path (save_state_file env codec path s m).1.files ≡ lookup path m.files
  unfolding save_state_file
  unsaved_file s m h =
      let temp = temp_path env codec path in
      ground (arith, temp_apart, text_eq_refl temp, lookup-without temp path m.files)

  content-save :
      (s : S) (m : Machine)
      → (save_state_file env codec path s m).0 ≡ ok tt
      → file_content env codec path (save_state_file env codec path s m).1 ≡ some s
  unfolding file_content
  content-save s m h = ground (arith, saved_file s m h, decoded-encode s)

  content-save_failed :
      (s : S) (m : Machine)
      → is_ok (save_state_file env codec path s m).0 ≡ false
      → file_content env codec path (save_state_file env codec path s m).1
        ≡ file_content env codec path m
  unfolding file_content
  content-save_failed s m h = rw (unsaved_file s m h)

  -- What the registries rely on holds of the state file, whichever calls on the host fail.
  pub store_laws : StateLaws (machine_os env) (state_file env codec path)
  store_laws = record {
    content = file_content env codec path;
    load-content = load-content;
    content-load = content-load;
    content-save = content-save;
    content-save_failed = content-save_failed;
    content-entropy = λ m. unfold machine_os file_content in refl;
  }

  -- Whatever calls of the host fail, and whatever a failed write leaves, the state file stands
  -- for the new state behind a saveStateFile that succeeds, and for the state that it stood for
  -- behind one that fails.
  pub save_all_or_nothing :
      (s : S) (m : Machine)
      → file_content env codec path (save_state_file env codec path s m).1 ≡ (
          if is_ok (save_state_file env codec path s m).0
          then some s
          else file_content env codec path m)
  save_all_or_nothing s m = ground (
    arith,
    content-save s m,
    content-save_failed s m,
    ok_unit (save_state_file env codec path s m).0,
  )

  -- A loadStateFile that succeeds behind a saveStateFile that succeeded returns the saved state.
  pub load-save :
      (s s' : S) (m : Machine)
      → (save_state_file env codec path s m).0 ≡ ok tt
      → (load_state_file env codec path (save_state_file env codec path s m).1).0 ≡ ok s'
      → s' ≡ s
  load-save s s' m saved loaded =
      let m' = (save_state_file env codec path s m).1 in
      ground (arith, content-save s m, load-content m' s')
