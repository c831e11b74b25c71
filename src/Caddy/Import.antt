-- ===== src/Caddy/Import.antt =====
-- `ensureManagedRootImport` and `removeManagedRootImport` of
-- daemon/internal/host/ubuntu/caddy/manager.go. A file that does not exist is `none`.
pub mod Managed
use lara_nux.Base.{
  ℕ, Bool, true, false, List, [], ◌∷◌, ◌++◌, ◌==◌, if◌then◌else◌, is_empty, Option, none, some,
}
use lara_nux.Text.{Text, lit, text_eq, trim_space, trim_right_by, contains, split, join}

abbrev pub newline : ℕ
newline = 10

abbrev pub managed_import_start_line : Text
managed_import_start_line = lit "# Lara Nux managed Caddy import start"

abbrev pub managed_import_end_line : Text
managed_import_end_line = lit "# Lara Nux managed Caddy import end"

abbrev pub managed_import_line : Text
managed_import_line = lit "import sites.d/lara-nux/*.caddy"

abbrev pub block : Text
block =
    managed_import_start_line
    ++ (newline ∷ managed_import_line ++ (newline ∷ managed_import_end_line))

-- The content with the import behind it.
with_import : Text → Text
unfolding trim_right_by
with_import content =
    let base = trim_right_by (λ c. c == newline) content in
    if is_empty base
    then block ++ newline ∷ []
    else base ++ (newline ∷ newline ∷ (block ++ newline ∷ []))

-- The next content of the root configuration, and whether it changes.
unfoldable pub ensure_managed_root_import : Option Text → Text × Bool
unfolding with_import contains
ensure_managed_root_import none = (with_import [], true)
ensure_managed_root_import (some content) =
    if contains managed_import_line content then (content, false) else (with_import content, true)

-- The loop over the lines: `skip` is set between the start and the end line.
unfoldable pub outside_block : Bool → List Text → List Text
unfolding trim_space text_eq
outside_block skip [] = []
outside_block skip (line ∷ lines) =
    let trimmed = trim_space line in
    let starts = text_eq trimmed managed_import_start_line in
    let ends = text_eq trimmed managed_import_end_line in
    let rest = outside_block (if starts then true else if ends then false else skip) lines in
    if starts then rest else if ends then rest else if skip then rest else line ∷ rest

-- The next content, `none` if nothing is left, and whether it changes.
unfoldable pub remove_managed_root_import : Option Text → Option Text × Bool
unfolding contains split outside_block join
remove_managed_root_import none = (none, false)
remove_managed_root_import (some content) =
    let result = trim_space (join (newline ∷ []) (outside_block false (split newline content))) in
    if contains managed_import_start_line content
    then (if is_empty result then none else some (result ++ newline ∷ []), true)
    else (some content, false)
