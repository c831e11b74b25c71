-- ===== src/Sites/Domain.antt =====
-- `normalizeDomain` and `domainLabelPattern` of daemon/internal/app/site_registry.go.
pub mod Shape
pub mod Sound
use lara_nux.Base.{
  ℕ, Bool, true, false, ◌&&◌, ◌||◌, not, List, [], ◌∷◌, ◌++◌, ◌==◌, if◌then◌else◌, is_empty,
}
use lara_nux.Text.{
  Text, Unicode, lit, is_lower_letter, is_digit, trim_space, to_lower, has_suffix, trim_suffix,
  split,
}
use lara_nux.Effect.Fault.{Result, ok, err, ◌>>=◌, ◌>>◌, require, sentinel, invalid_domain}

abbrev pub is_alnum : ℕ → Bool
is_alnum c = is_lower_letter c || is_digit c

abbrev pub is_label_char : ℕ → Bool
is_label_char c = is_alnum c || (c == b'-')

-- `[a-z0-9-]*[a-z0-9]` to the end of the text.
unfoldable pub match_rest : Text → Bool
match_rest [] = false
match_rest (c ∷ s) = (is_alnum c && is_empty s) || (is_label_char c && match_rest s)

-- `^[a-z0-9](?:[a-z0-9-]*[a-z0-9])?$`
unfoldable pub match_label : Text → Bool
unfolding match_rest
match_label [] = false
match_label (c ∷ s) = is_alnum c && (is_empty s || match_rest s)

abbrev pub dot_test : Text
dot_test = b'.' ∷ b't' ∷ b'e' ∷ b's' ∷ b't' ∷ []

module _ ⦃u : Unicode⦄ where
  -- The loop over the labels: the first that does not match ends it.
  check_labels : List Text → Result (Unit {0})
  check_labels [] = ok tt
  check_labels (label ∷ labels) = do
    require (match_label label) (
        sentinel invalid_domain (
          lit "invalid site domain: label "
          ++ (u.quote label ++ lit " is not a valid local hostname segment")))
    check_labels labels

  -- The tests of a domain, behind the trimming and the default.
  pub check_domain : Text → Result Text
  check_domain value = do
    require (has_suffix dot_test value) (
        sentinel invalid_domain
          (lit "invalid site domain: domain " ++ (u.quote value ++ lit " must end with .test")))
    let host = trim_suffix dot_test value
    require (not (is_empty host)) (
        sentinel invalid_domain (
          lit "invalid site domain: domain "
          ++ (u.quote value ++ lit " must include a hostname label")))
    check_labels (split b'.' host)
    ok value

  unfoldable pub normalize_domain : Text → Text → Result Text
  unfolding check_domain check_labels trim_space to_lower
  normalize_domain raw fallback_name =
      let value = to_lower (trim_space raw) in
      check_domain (if is_empty value then fallback_name ++ dot_test else value)
