-- ===== src/Text/Paths.antt =====
-- `path/filepath` on Unix: `Base`, `Clean`, `Join`, `Dir`.
use lara_nux.Base.{ℕ, Bool, ◌&&◌, ◌||◌, not, List, [], ◌∷◌, ◌==◌, if◌then◌else◌, is_empty, filter}
use mathlib.Core.List.{foldl, reverse}
use lara_nux.Text.Runes.{Text, text_eq}
use lara_nux.Text.Trim.{trim_right_by}
use lara_nux.Text.Search.{split, join, has_prefix}

abbrev pub slash : ℕ
slash = b'/'

last_part : List Text → Text
last_part [] = []
last_part (p ∷ []) = p
last_part (p ∷ q ∷ ps) = last_part (q ∷ ps)

-- `filepath.Base`
unfoldable pub base_name : Text → Text
unfolding last_part split trim_right_by
base_name path =
    let stripped = trim_right_by (λ c. c == slash) path in
    if is_empty path
    then b'.' ∷ []
    else if is_empty stripped
    then slash ∷ []
    else last_part (split slash stripped)

abbrev dots : Text
dots = b'.' ∷ b'.' ∷ []

-- One element of a path, on the stack of those kept so far, the last one first.
clean_step : Bool → List Text → Text → List Text
unfolding text_eq
clean_step rooted stack part =
    if is_empty part || text_eq part (b'.' ∷ [])
    then stack
    else if text_eq part dots
    then elim stack [
      | [] ↦ if rooted then [] else dots ∷ []
      | top ∷ rest ↦ if text_eq top dots then dots ∷ top ∷ rest else rest
    ]
    else part ∷ stack

-- `filepath.Clean`
unfoldable pub clean : Text → Text
unfolding clean_step has_prefix join split
clean path =
    let rooted = has_prefix (slash ∷ []) path in
    let body = join (slash ∷ []) (reverse (foldl (clean_step rooted) [] (split slash path))) in
    if rooted then slash ∷ body else if is_empty body then b'.' ∷ [] else body

-- `filepath.Join`: the elements that are not empty, joined and cleaned.
unfoldable pub join_path : List Text → Text
unfolding clean filter join
join_path parts =
    let kept = filter (λ p. not (is_empty p)) parts in
    if is_empty kept then [] else clean (join (slash ∷ []) kept)

-- The text up to its last slash, that slash included.
up_to_slash : Text → Text
up_to_slash [] = []
up_to_slash (c ∷ s) =
    let rest = up_to_slash s in if is_empty rest && not (c == slash) then [] else c ∷ rest

-- `filepath.Dir`
unfoldable pub dir_name : Text → Text
unfolding clean up_to_slash
dir_name path = clean (up_to_slash path)
