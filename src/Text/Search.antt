-- ===== src/Text/Search.antt =====
-- `strings.HasPrefix`, `HasSuffix`, `Contains`, `Split`, `Join`, `Cut`, `Fields`, `ReplaceAll`.
use lara_nux.Base.{
  ℕ, ◌≡◌, ◌≢◌, refl, ap, Bool, true, false, ◌||◌, List, [], ◌∷◌, ◌++◌, Option, none, some, arith,
  ◌==◌, if◌then◌else◌, is_some, is_empty, All, filter, not, inl, inr, subst, sym,
}
use mathlib.Core.List.{append_cancel_right}
use lara_nux.Base.{Option-cases, ◌∙◌}
use lara_nux.Text.Runes.{Text, text_eq, text_eq_iff, text_eq_refl, is_space}
use lara_nux.Text.Trim.{strip_prefix, strip_prefix-append, or_else}

unfoldable pub has_prefix : Text → Text → Bool
unfolding strip_prefix
has_prefix p s = is_some (strip_prefix p s)

-- The text before the suffix, if the text has that suffix.
unfoldable pub strip_suffix : Text → Text → Option Text
unfolding text_eq
strip_suffix p [] = if text_eq p [] then some [] else none
strip_suffix p (c ∷ s) =
    let shorter = strip_suffix p s in
    if text_eq p (c ∷ s) then some [] else elim shorter [ none ↦ none | some t ↦ some (c ∷ t) ]

unfoldable pub has_suffix : Text → Text → Bool
unfolding strip_suffix
has_suffix p s = is_some (strip_suffix p s)

-- `strings.TrimSuffix`
unfoldable pub trim_suffix : Text → Text → Text
unfolding strip_suffix
trim_suffix p s = or_else (strip_suffix p s) s

-- What `strip_suffix` does at one code point, with its own answer `shorter` behind it.
abbrev strip_step : Text → ℕ → Text → Option Text → Option Text
strip_step p c s shorter =
    if text_eq p (c ∷ s) then some [] else elim shorter [ none ↦ none | some t ↦ some (c ∷ t) ]

strip_step_sound :
    (p : Text) (c : ℕ) (s : Text) (shorter : Option Text)
    → ((t : Text) → shorter ≡ some t → s ≡ t ++ p)
    → (t : Text) → strip_step p c s shorter ≡ some t
    → c ∷ s ≡ t ++ p
strip_step_sound p c s none ih t h = ground (arith, text_eq_iff p (c ∷ s))
strip_step_sound p c s (some t') ih t h = ground (arith, text_eq_iff p (c ∷ s), ih t')

pub strip_suffix_sound : (p s : Text) (t : Text) → strip_suffix p s ≡ some t → s ≡ t ++ p
unfolding strip_suffix
strip_suffix_sound p [] t h = ground (arith, text_eq_iff p [])
strip_suffix_sound p (c ∷ s) t h =
    strip_step_sound p c s (strip_suffix p s) (strip_suffix_sound p s) t h

strip_suffix-nil : (p : Text) (t : Text) → strip_suffix p p ≡ some t → t ≡ []
unfolding strip_suffix
strip_suffix-nil [] t h = ground (arith, text_eq_refl [])
strip_suffix-nil (c ∷ p) t h = ground (arith, text_eq_refl (c ∷ p))

strip_suffix-append : (p s : Text) → strip_suffix p (s ++ p) ≢ none
unfolding strip_suffix
strip_suffix-append [] [] = ground (arith, text_eq_refl [])
strip_suffix-append (c ∷ p) [] = ground (arith, text_eq_refl (c ∷ p))
strip_suffix-append p (c ∷ s) = step (strip_suffix p (s ++ p)) (strip_suffix-append p s)
  where
    step : (r : Option Text) → r ≢ none → strip_step p c (s ++ p) r ≢ none
    step none ne = absurd (ne refl)
    step (some t) ne = ground arith

-- A suffix is taken off again.
pub strip_suffix-append_self : (p s : Text) → strip_suffix p (s ++ p) ≡ some s
strip_suffix-append_self p s = elim (Option-cases (strip_suffix p (s ++ p))) [
  | inl e ↦ absurd (strip_suffix-append p s e)
  | inr (t, e) ↦ e ∙ ap some (sym (append_cancel_right s t p (strip_suffix_sound p (s ++ p) t e)))
]

-- `strings.Contains`
unfoldable pub contains : Text → Text → Bool
unfolding has_prefix
contains p [] = has_prefix p []
contains p (c ∷ s) = has_prefix p (c ∷ s) || contains p s

pub contains-prefix : (p t : Text) → contains p (p ++ t) ≡ true
unfolding contains has_prefix
contains-prefix [] [] = unfold strip_prefix in refl
contains-prefix [] (c ∷ t) = unfold strip_prefix in refl
contains-prefix (c ∷ p) t = ground (arith, strip_prefix-append (c ∷ p) t)

pub contains-cons : (p : Text) (c : ℕ) (s : Text) → contains p s ≡ true → contains p (c ∷ s) ≡ true
unfolding contains
contains-cons p c s h = ground (arith, h)

pub contains-behind : (p r s : Text) → contains p s ≡ true → contains p (r ++ s) ≡ true
contains-behind p [] s h = h
contains-behind p (c ∷ r) s h = contains-cons p c (r ++ s) (contains-behind p r s h)

-- One more code point in the first part.
abbrev cons_first : ℕ → List Text → List Text
cons_first c [] = (c ∷ []) ∷ []
cons_first c (p ∷ ps) = (c ∷ p) ∷ ps

-- `strings.Split` at a separator of one code point.
unfoldable pub split : ℕ → Text → List Text
split sep [] = [] ∷ []
split sep (c ∷ s) = let rest = split sep s in if c == sep then [] ∷ rest else cons_first c rest

-- `strings.Join`
unfoldable pub join : Text → List Text → Text
join sep [] = []
join sep (p ∷ []) = p
join sep (p ∷ q ∷ ps) = p ++ (sep ++ join sep (q ∷ ps))

-- `strings.Cut` at a separator of one code point: the text before and behind its first place.
unfoldable pub cut : ℕ → Text → Option (Text × Text)
cut sep [] = none
cut sep (c ∷ s) =
    let rest = cut sep s in
    if c == sep
    then some ([], s)
    else elim rest [ none ↦ none | some (before, behind) ↦ some (c ∷ before, behind) ]

-- The words of a text, the empty ones between two separators among them.
words : Text → List Text
unfolding is_space
words [] = [] ∷ []
words (c ∷ s) = let rest = words s in if is_space c then [] ∷ rest else cons_first c rest

-- `strings.Fields`
unfoldable pub fields : Text → List Text
unfolding words filter
fields s = filter (λ w. not (is_empty w)) (words s)

-- Splitting and joining at the same separator gives the text back.
pub join-split : (sep : ℕ) (s : Text) → join (sep ∷ []) (split sep s) ≡ s
unfolding split join
join-split sep [] = refl
join-split sep (c ∷ s) = step (split sep s) (join-split sep s) (split-ne-nil sep s)
  where
    split-ne-nil : (sep : ℕ) (s : Text) → split sep s ≢ []
    split-ne-nil sep [] = cc
    split-ne-nil sep (d ∷ t) = cons_case (d == sep) (split sep t)
      where
        cons_case : (b : Bool) (r : List Text) → (if b then [] ∷ r else cons_first d r) ≢ []
        cons_case true r = cc
        cons_case false [] = cc
        cons_case false (p ∷ ps) = cc

    step :
        (r : List Text)
        → join (sep ∷ []) r ≡ s
        → r ≢ []
        → join (sep ∷ []) (if c == sep then [] ∷ r else cons_first c r) ≡ c ∷ s
    step [] h ne = absurd (ne refl)
    step (p ∷ []) h ne = ground arith
    step (p ∷ q ∷ ps) h ne = ground arith

-- Text without the separator is one part.
pub split-lacks : (sep : ℕ) (s : Text) → All (λ c. (c == sep) ≡ false) s → split sep s ≡ s ∷ []
unfolding split
split-lacks sep [] _ = refl
split-lacks sep (c ∷ s) (h, hs) = rw (h, split-lacks sep s hs)

module _ (P : ℕ → Type 0) where
  split_step-All :
      (at_sep : Bool) (c : ℕ) (s : Text) (r : List Text)
      → (at_sep ≡ true → P c)
      → (All (All P) r → All P s)
      → All (All P) (if at_sep then [] ∷ r else cons_first c r)
      → P c × All P s
  split_step-All true c s r hsep ih h = (hsep refl, ih h.1)
  split_step-All false c s [] hsep ih h = (h.0.0, ih tt)
  split_step-All false c s (p ∷ ps) hsep ih h = (h.0.0, ih (h.0.1, h.1))

  -- What holds of every code point of every part, and of the separator, holds of the text.
  pub split-All : (sep : ℕ) (s : Text) → P sep → All (All P) (split sep s) → All P s
  unfolding split
  split-All sep [] hsep h = tt
  split-All sep (c ∷ s) hsep h =
      split_step-All (c == sep) c s (split sep s)
        (λ e. subst P (sym (let same : c ≡ sep = ground arith in same)) hsep) (split-All sep s hsep)
        h
