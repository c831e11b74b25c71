-- ===== src/Sites/Name/Label.antt =====
-- Every derived site name is a domain label, so that the default domain is always accepted.
use lara_nux.Base.{
  ℕ, Bool, true, false, ◌&&◌, ◌||◌, not, [], ◌∷◌, ◌++◌, ◌==◌, if◌then◌else◌, is_empty, ◌≡◌, refl,
  arith, map, All, All-append, All-map,
}
use lara_nux.Text.{
  Text, Unicode, trim_space, to_lower, trim_by, trim_left_by, trim_right_by, base_name, is_blank,
  split-lacks,
}
use lara_nux.Effect.Fault.{ok}
use lara_nux.Sites.Domain.Sound.{match_label-All, check_host}
use lara_nux.Sites.Domain.{
  is_alnum, is_label_char, match_rest, match_label, dot_test, normalize_domain,
}
use lara_nux.Sites.Name.{dashed, is_dash, name_step, name_loop, trimmed_name, derive_site_name}

-- What the loop has built: nothing yet, or a letter or digit and label characters behind it.
abbrev IsStem : Text → Type 0
IsStem [] = Unit
IsStem (c ∷ s) = (is_alnum c ≡ true) × All (λ d. is_label_char d ≡ true) s

IsStem-append :
    (s : Text) (c : ℕ)
    → IsStem s
    → is_label_char c ≡ true
    → (is_empty s ≡ true → is_alnum c ≡ true)
    → IsStem (s ++ c ∷ [])
IsStem-append [] c h label first = (first refl, tt)
IsStem-append (d ∷ s) c (h, hs) label first = (h, All-append _ s (c ∷ []) hs (label, tt))

step_case-IsStem :
    (alnum dash last : Bool) (c : ℕ) (s : Text)
    → IsStem s
    → (alnum ≡ true → is_alnum c ≡ true)
    → (dash ≡ true → is_empty s ≡ false)
    → IsStem
        (if◌then◌else◌ {A = Text × Bool} alnum
          (s ++ c ∷ [], false)
          (if dash then (s ++ b'-' ∷ [], true) else (s, last))).0
step_case-IsStem true dash last c s h first more =
    IsStem-append s c h (ground (arith, first refl)) (λ _. first refl)
step_case-IsStem false true last c s h first more =
    IsStem-append s b'-' h refl (λ e. ground (arith, more refl))
step_case-IsStem false false last c s h first more = h

name_step-IsStem : (c : ℕ) (s : Text) (last : Bool) → IsStem s → IsStem (name_step c s last).0
unfolding name_step
name_step-IsStem c s last h =
    step_case-IsStem (is_alnum c) (is_dash c && not (is_empty s) && not last) last c s h (λ e. e)
      (λ e. ground arith)

name_loop-IsStem : (text s : Text) (last : Bool) → IsStem s → IsStem (name_loop text s last)
unfolding name_loop
name_loop-IsStem [] s last h = h
name_loop-IsStem (c ∷ text) s last h =
    name_loop-IsStem text (name_step c s last).0 (name_step c s last).1
      (name_step-IsStem c s last h)

-- Label characters that lose the dashes at their end are nothing, or end in a letter or digit.
trimmed_rest :
    (s : Text)
    → All (λ d. is_label_char d ≡ true) s
    → (is_empty (trim_right_by is_dash s) || match_rest (trim_right_by is_dash s)) ≡ true
unfolding trim_right_by match_rest
trimmed_rest [] h = refl
trimmed_rest (c ∷ s) (h, hs) = ground (arith, trimmed_rest s hs)

trim_by-cons :
    (c : ℕ) (s : Text) → is_alnum c ≡ true → trim_by is_dash (c ∷ s) ≡ c ∷ trim_right_by is_dash s
unfolding trim_by trim_left_by
trim_by-cons c s h = ground arith

trimmed_name-label : (s : Text) → IsStem s → match_label (trimmed_name s) ≡ true
unfolding trimmed_name match_label
trimmed_name-label [] h = unfold trim_by match_rest in refl
trimmed_name-label (c ∷ s) (h, hs) = rw (trim_by-cons c s h, h) (trimmed_rest s hs)

-- The name that deriveSiteName gives for any path matches the pattern of a domain label.
pub derive_site_name-label :
    ⦃u : Unicode⦄ → (path : Text) → match_label (derive_site_name path) ≡ true
unfolding derive_site_name
derive_site_name-label path =
    let dashes = map dashed (to_lower (trim_space (base_name path))) in
    trimmed_name-label (name_loop dashes [] false) (name_loop-IsStem dashes [] false tt)

label_char-dot : (c : ℕ) → is_label_char c ≡ true → (c == b'.') ≡ false
label_char-dot c h = ground arith

module _ ⦃u : Unicode⦄ where
  -- With a blank domain, normalizeDomain accepts the name that deriveSiteName gives for any
  -- project path and returns it with .test behind it.
  pub default_domain :
      (raw path : Text)
      → is_blank raw ≡ true
      → normalize_domain raw (derive_site_name path) ≡ ok (derive_site_name path ++ dot_test)
  unfolding normalize_domain is_blank
  default_domain raw path blank =
      let name = derive_site_name path in
      let label = derive_site_name-label path in
      rw (to_lower-nil (trim_space raw) blank) (
        check_host name
          (split-lacks b'.' name (All-map label_char-dot name (match_label-All name label))) label)
    where
      to_lower-nil : (s : Text) → is_empty s ≡ true → to_lower s ≡ []
      to_lower-nil [] h = unfold to_lower in refl
      to_lower-nil (c ∷ s) h = cc
