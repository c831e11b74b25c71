-- ===== src/Text/Trim.antt =====
-- `strings.TrimSpace`, `Trim`, `TrimRight`, `TrimPrefix`, `TrimSuffix`.
use lara_nux.Base.{
  ℕ, ◌≡◌, refl, Bool, false, ◌&&◌, [], ◌∷◌, ◌++◌, Option, none, some, arith, ◌==◌, if◌then◌else◌,
  is_empty, All,
}
use lara_nux.Text.Runes.{Text, is_space}

-- A code point in front of text that is trimmed at its end.
abbrev cons_trimmed : Bool → ℕ → Text → Text
cons_trimmed drops c [] = if drops then [] else c ∷ []
cons_trimmed drops c (d ∷ s) = c ∷ d ∷ s

module _ (drops : ℕ → Bool) where
  unfoldable pub trim_left_by : Text → Text
  trim_left_by [] = []
  trim_left_by (c ∷ s) = let rest = trim_left_by s in if drops c then rest else c ∷ s

  unfoldable pub trim_right_by : Text → Text
  trim_right_by [] = []
  trim_right_by (c ∷ s) = cons_trimmed (drops c) c (trim_right_by s)

  unfoldable pub trim_by : Text → Text
  unfolding trim_left_by trim_right_by
  trim_by s = trim_right_by (trim_left_by s)

  pub trim_right_by_kept : (s : Text) → All (λ c. drops c ≡ false) s → trim_right_by s ≡ s
  unfolding trim_right_by
  trim_right_by_kept [] _ = refl
  trim_right_by_kept (c ∷ []) (h, _) = ground arith
  trim_right_by_kept (c ∷ d ∷ s) (h, hs) = ground (arith, trim_right_by_kept (d ∷ s) hs)

  -- Text without such code points is left as it is.
  pub trim_by_kept : (s : Text) → All (λ c. drops c ≡ false) s → trim_by s ≡ s
  unfolding trim_by
  trim_by_kept [] _ = refl
  trim_by_kept (c ∷ s) (h, hs) = ground (arith, trim_right_by_kept (c ∷ s) (h, hs))

  pub trim_right_by-All : (P : ℕ → Type 0) (s : Text) → All P s → All P (trim_right_by s)
  unfolding trim_right_by
  trim_right_by-All P [] _ = tt
  trim_right_by-All P (c ∷ s) (h, hs) = cons_case (trim_right_by s) (trim_right_by-All P s hs)
    where
      cons_case : (t : Text) → All P t → All P (cons_trimmed (drops c) c t)
      cons_case [] _ = ground arith
      cons_case (d ∷ t) ht = (h, ht)

-- `strings.TrimSpace`
unfoldable pub trim_space : Text → Text
unfolding trim_by is_space
trim_space s = trim_by is_space s

pub trim_space_kept : (s : Text) → All (λ c. is_space c ≡ false) s → trim_space s ≡ s
unfolding trim_space
trim_space_kept s h = trim_by_kept is_space s h

-- `strings.TrimSpace(s) == ""`
unfoldable pub is_blank : Text → Bool
unfolding trim_space
is_blank s = is_empty (trim_space s)

-- What is left of `s` behind the prefix, if it has that prefix.
unfoldable pub strip_prefix : Text → Text → Option Text
strip_prefix [] s = some s
strip_prefix (c ∷ p) [] = none
strip_prefix (c ∷ p) (d ∷ s) = if c == d then strip_prefix p s else none

abbrev pub or_else : Option Text → Text → Text
or_else none s = s
or_else (some t) s = t

-- `strings.TrimPrefix`
unfoldable pub trim_prefix : Text → Text → Text
unfolding strip_prefix
trim_prefix p s = or_else (strip_prefix p s) s

pub strip_prefix-append : (p s : Text) → strip_prefix p (p ++ s) ≡ some s
unfolding strip_prefix
strip_prefix-append [] s = refl
strip_prefix-append (c ∷ p) s = ground (arith, strip_prefix-append p s)

pub strip_prefix_sound : (p s : Text) {t : Text} → strip_prefix p s ≡ some t → s ≡ p ++ t
unfolding strip_prefix
strip_prefix_sound [] s h = ground arith
strip_prefix_sound (c ∷ p) [] h = cc
strip_prefix_sound (c ∷ p) (d ∷ s) {t} h = ground (arith, strip_prefix_sound p s {t = t})

drop_leading : ℕ → Text → Text
drop_leading d [] = []
drop_leading d (c ∷ s) = let rest = drop_leading d s in if c == d then rest else c ∷ s

drop_trailing : ℕ → Text → Text
drop_trailing d [] = []
drop_trailing d (c ∷ s) =
    let rest = drop_trailing d s in if (c == d) && is_empty rest then [] else c ∷ rest

-- `strings.Trim` with one code point to be cut off.
unfoldable pub trim_code : ℕ → Text → Text
unfolding drop_leading drop_trailing
trim_code d s = drop_trailing d (drop_leading d s)
