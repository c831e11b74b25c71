-- ===== src/Bootstrap/Release.antt =====
-- `UbuntuRelease` and `readOSRelease`: daemon/internal/app/bootstrap_service.go.
use lara_nux.Base.{Bool, ◌||◌, List, [], ◌∷◌, Option, none, some, is_empty, if◌then◌else◌}
use lara_nux.Text.{Text, codes, text_eq, trim_space, has_prefix, cut, split, trim_code}
use lara_nux.Effect.Action.{Action, ◌>>=◌, pure}
use lara_nux.Machine.Calls.{Machine, Environment, read_file}

pub record UbuntuRelease : Type 0 where
  pub id : Text
  pub version_id : Text
  pub version_codename : Text
  pub pretty_name : Text

abbrev Values : Type 0
Values = List (Text × Text)

-- `values[key] = value`: the last value of a key stands first.
assigned : Values → Option (Text × Text) → Values
unfolding trim_code
assigned values none = values
assigned values (some (key, value)) = (key, trim_code b'"' value) ∷ values

with_line : Values → Text → Values
unfolding assigned trim_space has_prefix cut
with_line values line =
    let trimmed = trim_space line in
    if is_empty trimmed || has_prefix (codes "#") trimmed
    then values
    else assigned values (cut b'=' trimmed)

-- The loop over the lines.
unfoldable pub os_values : Values → List Text → Values
unfolding with_line
os_values values [] = values
os_values values (line ∷ lines) = os_values (with_line values line) lines

-- `values[key]`
unfoldable pub value_of : Text → Values → Text
unfolding text_eq
value_of key [] = []
value_of key ((k, value) ∷ values) =
    let rest = value_of key values in if text_eq k key then value else rest

unfoldable pub parse_os_release : Text → UbuntuRelease
unfolding os_values value_of split
parse_os_release content =
    let values = os_values [] (split 10 content) in
    record {
      id = value_of (codes "ID") values;
      version_id = value_of (codes "VERSION_ID") values;
      version_codename = value_of (codes "VERSION_CODENAME") values;
      pretty_name = value_of (codes "PRETTY_NAME") values;
    }

-- `readOSRelease`
unfoldable pub read_os_release : Environment → Text → Action Machine UbuntuRelease
unfolding ◌>>=◌ read_file parse_os_release
read_os_release env path = do content ← read_file env path; pure (parse_os_release content)

unfoldable pub supported_ubuntu_release : Text → Bool
unfolding text_eq
supported_ubuntu_release version =
    text_eq version (codes "22.04") || text_eq version (codes "24.04")
