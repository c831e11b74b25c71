-- ===== src/Text/Runes.antt =====
-- Code points: ASCII is written out; what the Unicode tables say of the other code points, and the
-- quoting of `%q`, are a parameter of the model.
use Prim.Native.Char.{code}
use lara_nux.Base.{
  ℕ, ◌+◌, String, ◌≡◌, refl, ◌↔◌, Bool, true, false, ◌&&◌, ◌||◌, List, [], ◌∷◌, arith, ltb, leb,
  ◌==◌, if◌then◌else◌,
}

abbrev pub Text : Type 0
Text = List ℕ

abbrev pub codes : String → Text
codes String.[] = []
codes (String.◌∷◌ c s) = code c ∷ codes s

-- A literal of the source. It stays folded in proofs.
unfoldable pub lit : String → Text
lit s = codes s

-- `lower` and `fold` are consulted for code points from 128 on: the lower case of `unicode.ToLower`
-- and a representative of the orbit of `unicode.SimpleFold`. `quote` is `strconv.Quote`.
pub record Unicode : Type 0 where
  pub lower : ℕ → ℕ
  pub fold : ℕ → ℕ
  pub quote : List ℕ → List ℕ

unfoldable pub text_eq : Text → Text → Bool
text_eq [] [] = true
text_eq (c ∷ s) (d ∷ t) = (c == d) && text_eq s t
text_eq _ _ = false

pub text_eq_iff : (s t : Text) → (text_eq s t ≡ true) ↔ (s ≡ t)
unfolding text_eq
text_eq_iff [] [] = ground arith
text_eq_iff [] (d ∷ t) = ground arith
text_eq_iff (c ∷ s) [] = ground arith
text_eq_iff (c ∷ s) (d ∷ t) = ground (arith, text_eq_iff s t)

pub text_eq_refl : (s : Text) → text_eq s s ≡ true
text_eq_refl s = (text_eq_iff s s).1 refl

-- `s < t` on Go strings. The order of UTF-8 bytes is the order of code points.
unfoldable pub text_lt : Text → Text → Bool
text_lt [] [] = false
text_lt [] (d ∷ t) = true
text_lt (c ∷ s) [] = false
text_lt (c ∷ s) (d ∷ t) = ltb c d || ((c == d) && text_lt s t)

pub text_lt_asymm : (s t : Text) → text_lt s t ≡ true → text_lt t s ≡ false
unfolding text_lt
text_lt_asymm [] [] h = cc
text_lt_asymm [] (d ∷ t) h = refl
text_lt_asymm (c ∷ s) [] h = cc
text_lt_asymm (c ∷ s) (d ∷ t) h = ground (arith, text_lt_asymm s t)

pub text_le_trans : (s t r : Text) → text_lt t s ≡ false → text_lt r t ≡ false → text_lt r s ≡ false
unfolding text_lt
text_le_trans [] t [] h k = refl
text_le_trans [] [] (e ∷ r) h k = ground (arith, k)
text_le_trans [] (d ∷ t) (e ∷ r) h k = refl
text_le_trans (c ∷ s) [] r h k = cc
text_le_trans (c ∷ s) (d ∷ t) [] h k = cc
text_le_trans (c ∷ s) (d ∷ t) (e ∷ r) h k = ground (arith, h, k, text_le_trans s t r)

pub text_lt_total : (s t : Text) → text_lt s t ≡ false → text_lt t s ≡ false → s ≡ t
unfolding text_lt
text_lt_total [] [] h k = refl
text_lt_total [] (d ∷ t) h k = cc
text_lt_total (c ∷ s) [] h k = cc
text_lt_total (c ∷ s) (d ∷ t) h k =
    let same : c ≡ d = ground (arith, h, k) in
    let rest : s ≡ t = text_lt_total s t (ground (arith, h, k)) (ground (arith, h, k)) in
    cc (same, rest)

abbrev pub is_lower_letter : ℕ → Bool
is_lower_letter c = leb b'a' c && leb c b'z'

abbrev pub is_upper_letter : ℕ → Bool
is_upper_letter c = leb b'A' c && leb c b'Z'

abbrev pub is_digit : ℕ → Bool
is_digit c = leb b'0' c && leb c b'9'

-- `unicode.IsSpace`: the control characters \t \n \v \f \r, and the code points of White_Space.
unfoldable pub is_space : ℕ → Bool
is_space c =
    (leb 9 c && leb c 13)
    || (c == 32)
    || (c == 0x85)
    || (c == 0xa0)
    || (c == 0x1680)
    || (leb 0x2000 c && leb c 0x200a)
    || (c == 0x2028)
    || (c == 0x2029)
    || (c == 0x202f)
    || (c == 0x205f)
    || (c == 0x3000)

module _ ⦃u : Unicode⦄ where
  unfoldable pub lower_rune : ℕ → ℕ
  lower_rune c = if ltb c 128 then (if is_upper_letter c then c + 32 else c) else u.lower c

  unfoldable pub fold_rune : ℕ → ℕ
  fold_rune c = if ltb c 128 then (if is_upper_letter c then c + 32 else c) else u.fold c

  -- `strings.ToLower`
  unfoldable pub to_lower : Text → Text
  unfolding lower_rune
  to_lower [] = []
  to_lower (c ∷ s) = lower_rune c ∷ to_lower s

  fold_text : Text → Text
  unfolding fold_rune
  fold_text [] = []
  fold_text (c ∷ s) = fold_rune c ∷ fold_text s

  -- `strings.EqualFold`
  unfoldable pub equal_fold : Text → Text → Bool
  unfolding fold_text text_eq
  equal_fold s t = text_eq (fold_text s) (fold_text t)

  pub equal_fold_refl : (s : Text) → equal_fold s s ≡ true
  unfolding equal_fold
  equal_fold_refl s = text_eq_refl (fold_text s)

  pub equal_fold_symm : (s t : Text) → equal_fold s t ≡ equal_fold t s
  unfolding equal_fold
  equal_fold_symm s t =
      ground
        (arith, text_eq_iff (fold_text s) (fold_text t), text_eq_iff (fold_text t) (fold_text s))
