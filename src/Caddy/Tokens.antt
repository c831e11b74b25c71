-- ===== src/Caddy/Tokens.antt =====
-- `sanitizeToken`, `firstNonEmpty` and `siteFilename` of
-- daemon/internal/host/ubuntu/caddy/manager.go.
use lara_nux.Base.{
  ℕ, zero, suc, Bool, ◌&&◌, ◌||◌, List, [], ◌∷◌, ◌==◌, if◌then◌else◌, is_empty, map, length,
}
use lara_nux.Text.{Text, Unicode, codes, trim_space, to_lower, trim_by, contains}

-- The replacer `/`, space, `.` and `_` to `-`.
dashed : ℕ → ℕ
dashed c = if (c == b'/') || (c == b' ') || (c == b'.') || (c == b'_') then b'-' else c

abbrev pub is_dash : ℕ → Bool
is_dash c = c == b'-'

abbrev pub two_dashes : Text
two_dashes = b'-' ∷ b'-' ∷ []

-- `strings.ReplaceAll(value, "--", "-")`: from the left, without overlap.
unfoldable pub replace_dashes : Text → Text
replace_dashes [] = []
replace_dashes (c ∷ []) = c ∷ []
replace_dashes (c ∷ d ∷ s) =
    let behind = replace_dashes s in
    let next = replace_dashes (d ∷ s) in if is_dash c && is_dash d then b'-' ∷ behind else c ∷ next

-- `for strings.Contains(value, "--")`, on fuel.
unfoldable pub collapse : ℕ → Text → Text
unfolding replace_dashes contains
collapse zero value = value
collapse (suc fuel) value =
    let again = collapse fuel (replace_dashes value) in
    if contains two_dashes value then again else value

unfoldable pub sanitize_token : ⦃u : Unicode⦄ → Text → Text
unfolding trim_space to_lower dashed collapse trim_by
sanitize_token value =
    let replaced = map dashed (to_lower (trim_space value)) in
    trim_by is_dash (collapse (length replaced) replaced)

-- The first value that is not blank, trimmed; `site` if all are blank.
unfoldable pub first_non_empty : List Text → Text
unfolding trim_space
first_non_empty [] = codes "site"
first_non_empty (value ∷ values) =
    let trimmed = trim_space value in
    let rest = first_non_empty values in if is_empty trimmed then rest else trimmed
