-- ===== src/Caddy/Import/Managed.antt =====
-- The managed import in the root configuration.
use lara_nux.Base.{
  true, false, [], ◌∷◌, ◌++◌, Option, none, some, ◌≡◌, arith, if◌then◌else◌, append_assoc, is_empty,
  ◌==◌,
}
use lara_nux.Text.{Text, contains, contains-prefix, contains-cons, contains-behind, trim_right_by}
use lara_nux.Caddy.Import.{
  ensure_managed_root_import, with_import, managed_import_line, managed_import_start_line, block,
  newline,
}

block-contains : (t : Text) → contains managed_import_line (block ++ t) ≡ true
block-contains t = simp append_assoc (
    contains-behind managed_import_line managed_import_start_line _
      (contains-cons managed_import_line newline _ (contains-prefix managed_import_line _)))

with_import-contains : (content : Text) → contains managed_import_line (with_import content) ≡ true
unfolding with_import
with_import-contains content = by_base (trim_right_by (λ c. c == newline) content)
  where
    by_base :
        (base : Text)
        → contains managed_import_line (
            if is_empty base
            then block ++ newline ∷ []
            else base ++ (newline ∷ newline ∷ (block ++ newline ∷ [])))
          ≡ true
    by_base [] = block-contains (newline ∷ [])
    by_base (c ∷ s) =
        contains-behind managed_import_line (c ∷ s) _
          (contains-cons _ newline _ (contains-cons _ newline _ (block-contains (newline ∷ []))))

-- The root configuration that ensureManagedRootImport returns contains the import, and another
-- call on it finds the import there and changes nothing.
pub ensure-imports :
    (existing : Option Text)
    → (contains managed_import_line (ensure_managed_root_import existing).0 ≡ true)
      × (ensure_managed_root_import (some (ensure_managed_root_import existing).0)
          ≡ ((ensure_managed_root_import existing).0, false))
unfolding ensure_managed_root_import
ensure-imports none = ground (arith, with_import-contains [])
ensure-imports (some content) = ground (arith, with_import-contains content)
