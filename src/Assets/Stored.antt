-- ===== src/Assets/Stored.antt =====
-- `Save` and `LoadManagedAssetManifest`: daemon/internal/app/managed_assets.go.
use lara_nux.Base.{false, ◌++◌, none, some, ◌≡◌, refl, arith, Bool-cases, inl, inr, if◌then◌else◌}
use lara_nux.Text.{Text, codes, lit, dir_name, text_eq, text_eq_refl}
use lara_nux.Effect.Fault.{Result, ok, err, is_ok, ok_unit, wrap}
use lara_nux.Effect.Action.{Action, ◌>>=◌, ◌>>◌, map_error, lift}
use lara_nux.Machine.Files.{lookup, lookup-without, text_eq-append}
use lara_nux.Machine.Calls.{
  Machine, Environment, read_file, write_file, rename_file, mkdir_all, read,
}
use lara_nux.Assets.Manifest.{ManagedAssetManifest}

-- `encode` and `decode` are encoding/json on manifests.
module _ (env : Environment) (encode : ManagedAssetManifest → Text)
    (decode : Text → Result ManagedAssetManifest) where
  abbrev pub temp_path : Text → Text
  temp_path path = path ++ codes ".tmp"

  unfoldable pub save : Text → ManagedAssetManifest → Action Machine (Unit {0})
  unfolding ◌>>=◌ map_error mkdir_all write_file rename_file
  save path m = do
    map_error (wrap (lit "create manifest directory: ")) (mkdir_all env (dir_name path))
    map_error (wrap (lit "write managed asset manifest: "))
        (write_file env (temp_path path) (encode m))
    map_error (wrap (lit "commit managed asset manifest: ")) (rename_file env (temp_path path) path)

  decoded : Text → Result ManagedAssetManifest
  decoded payload = elim (decode payload) [
    | ok m ↦ ok m
    | err e ↦ err (wrap (lit "decode managed asset manifest: ") e)
  ]

  unfoldable pub load_managed_asset_manifest : Text → Action Machine ManagedAssetManifest
  unfolding ◌>>=◌ map_error read_file decoded
  load_managed_asset_manifest path = do
    payload ← map_error (wrap (lit "read managed asset manifest: ")) (read_file env path)
    lift (decoded payload)

  temp_apart : (path : Text) → text_eq (temp_path path) path ≡ false
  temp_apart path = text_eq-append path (codes ".tmp") (unfold text_eq in refl)

  saved_file :
      (path : Text) (m : ManagedAssetManifest) (w : Machine)
      → (save path m w).0 ≡ ok tt
      → lookup path (save path m w).1.files ≡ some (encode m)
  unfolding save
  saved_file path m w h =
      ground (arith, temp_apart path, text_eq_refl path, text_eq_refl (temp_path path))

  unsaved_file :
      (path : Text) (m : ManagedAssetManifest) (w : Machine)
      → is_ok (save path m w).0 ≡ false
      → lookup path (save path m w).1.files ≡ lookup path w.files
  unfolding save
  unsaved_file path m w h = ground (
    arith,
    temp_apart path,
    text_eq_refl (temp_path path),
    lookup-without (temp_path path) path w.files,
  )

  loaded :
      (path : Text) (m : ManagedAssetManifest) (w : Machine)
      → (save path m w).0 ≡ ok tt
      → env.fault (save path m w).1.trace (read path) ≡ none
      → decode (encode m) ≡ ok m
      → (load_managed_asset_manifest path (save path m w).1).0 ≡ ok m
  unfolding load_managed_asset_manifest decoded
  loaded path m w h readable same =
      let w' = (save path m w).1 in ground (arith, saved_file path m w h, same)

  -- Behind a Save that succeeds, LoadManagedAssetManifest returns the saved manifest; a Save
  -- that fails leaves the file at the path as it was, whatever a failed write leaves. The read
  -- of the file behind the Save does not fail, and the encoded manifest is decoded to itself.
  pub load-save_manifest :
      (path : Text) (m : ManagedAssetManifest) (w : Machine)
      → env.fault (save path m w).1.trace (read path) ≡ none
      → decode (encode m) ≡ ok m
      → (if is_ok (save path m w).0
          then (load_managed_asset_manifest path (save path m w).1).0 ≡ ok m
          else lookup path (save path m w).1.files ≡ lookup path w.files)
  load-save_manifest path m w readable same = elim (Bool-cases (is_ok (save path m w).0)) [
    | inl e ↦ rw e (loaded path m w (ok_unit (save path m w).0 e) readable same)
    | inr e ↦ rw e (unsaved_file path m w e)
  ]
