-- ===== src/Sites/Name.antt =====
-- `deriveSiteName` and `newRecordID` of daemon/internal/app/site_registry.go.
pub mod Label
use lara_nux.Base.{
  ℕ, Bool, true, false, ◌&&◌, ◌||◌, not, List, [], ◌∷◌, ◌++◌, ◌==◌, if◌then◌else◌, is_empty, map,
}
use lara_nux.Text.{
  Text, Unicode, lit, codes, trim_space, to_lower, trim_by, base_name, decimal, hex_encode,
}
use lara_nux.Effect.Fault.{Result, ok, err}
use lara_nux.Sites.Domain.{is_alnum}

-- The replacer `_`, space and `.` to `-`.
dashed : ℕ → ℕ
dashed c = if (c == b'_') || (c == b' ') || (c == b'.') then b'-' else c

abbrev pub is_dash : ℕ → Bool
is_dash c = c == b'-'

-- One round of the loop: the builder and `lastDash` before it and behind it.
name_step : ℕ → Text → Bool → Text × Bool
name_step c built last_dash =
    if is_alnum c
    then (built ++ c ∷ [], false)
    else if is_dash c && not (is_empty built) && not last_dash
    then (built ++ b'-' ∷ [], true)
    else (built, last_dash)

name_loop : Text → Text → Bool → Text
unfolding name_step
name_loop [] built last_dash = built
name_loop (c ∷ s) built last_dash =
    let (built', last_dash') = name_step c built last_dash in name_loop s built' last_dash'

-- The name of a loop's text: `strings.Trim(…, "-")`, and `site` if nothing is left.
trimmed_name : Text → Text
unfolding trim_by
trimmed_name built =
    let name = trim_by is_dash built in if is_empty name then codes "site" else name

unfoldable pub derive_site_name : ⦃u : Unicode⦄ → Text → Text
unfolding base_name to_lower trim_space dashed name_loop trimmed_name
derive_site_name root_path =
    trimmed_name (name_loop (map dashed (to_lower (trim_space (base_name root_path)))) [] false)

-- The eight random bytes in hexadecimal; the clock's nanoseconds if there are none.
unfoldable pub new_record_id : Result (List ℕ) → ℕ → Text
unfolding hex_encode decimal
new_record_id (ok bytes) now = codes "site-" ++ hex_encode bytes
new_record_id (err e) now = codes "site-" ++ decimal now
