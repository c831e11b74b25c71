-- ===== src/Sites/Domain/Shape.antt =====
-- The labels of a domain, described by their characters: the texts that `domainLabelPattern` of
-- daemon/internal/app/site_registry.go matches.
use lara_nux.Base.{
  ℕ, ◌≤◌, true, [], ◌∷◌, ◌++◌, ◌≡◌, refl, ◌⊎◌, ap, arith, All, All-map, All-append_left,
}
use lara_nux.Text.{Text}
use lara_nux.Sites.Domain.{is_alnum, is_label_char, match_rest, match_label}

-- A digit or a lower case letter.
abbrev pub IsAlnum : ℕ → Type 0
IsAlnum c = ((b'0' ≤ c) × (c ≤ b'9')) ⊎ ((b'a' ≤ c) × (c ≤ b'z'))

-- Digits, lower case letters and dashes, with a digit or a letter at both ends.
pub record IsLabel (s : Text) : Type 0 where
  pub first : ℕ
  pub behind : Text
  pub starts : s ≡ first ∷ behind
  pub first_alnum : IsAlnum first
  pub last : ℕ
  pub before : Text
  pub ends : s ≡ before ++ last ∷ []
  pub last_alnum : IsAlnum last
  pub inside : All (λ c. IsAlnum c ⊎ (c ≡ b'-')) s

is_alnum_sound : (c : ℕ) → is_alnum c ≡ true → IsAlnum c
is_alnum_sound c h = ground arith

is_alnum_complete : (c : ℕ) → IsAlnum c → is_alnum c ≡ true
is_alnum_complete c h = ground arith

inside_label : (c : ℕ) → is_label_char c ≡ true → IsAlnum c ⊎ (c ≡ b'-')
inside_label c h = ground arith

label_inside : (c : ℕ) → IsAlnum c ⊎ (c ≡ b'-') → is_label_char c ≡ true
label_inside c h = ground arith

-- What the rest of a label behind its first character ends with.
rest_ends :
    (s : Text)
    → match_rest s ≡ true
    → (before : Text) × (last : ℕ) × (s ≡ before ++ last ∷ []) × (is_alnum last ≡ true)
unfolding match_rest
rest_ends [] h = cc
rest_ends (c ∷ []) h = ([], c, refl, ground (arith, h))
rest_ends (c ∷ d ∷ s) h =
    let (before, last, e, alnum) = rest_ends (d ∷ s) (ground (arith, h)) in
    (c ∷ before, last, ap (λ t. c ∷ t) e, alnum)

rest-All : (s : Text) → match_rest s ≡ true → All (λ c. is_label_char c ≡ true) s
unfolding match_rest
rest-All [] h = tt
rest-All (c ∷ []) h = ground arith
rest-All (c ∷ d ∷ s) h = ground (arith, rest-All (d ∷ s))

match_rest-append :
    (before : Text) (last : ℕ)
    → All (λ c. is_label_char c ≡ true) before
    → is_alnum last ≡ true
    → match_rest (before ++ last ∷ []) ≡ true
unfolding match_rest
match_rest-append [] last _ h = ground (arith, h)
match_rest-append (c ∷ before) last (k, ks) h =
    ground (arith, k, match_rest-append before last ks h)

pub match_label-IsLabel : (s : Text) → match_label s ≡ true → IsLabel s
unfolding match_label
match_label-IsLabel [] h = cc
match_label-IsLabel (c ∷ []) h = record {
  first = c;
  behind = [];
  starts = refl;
  first_alnum = is_alnum_sound c (ground (arith, h));
  last = c;
  before = [];
  ends = refl;
  last_alnum = is_alnum_sound c (ground (arith, h));
  inside = (inside_label c (ground (arith, h)), tt);
}
match_label-IsLabel (c ∷ d ∷ s) h =
    let (before, last, e, alnum) = rest_ends (d ∷ s) (ground (arith, h)) in
    record {
      first = c;
      behind = d ∷ s;
      starts = refl;
      first_alnum = is_alnum_sound c (ground (arith, h));
      last = last;
      before = c ∷ before;
      ends = ap (λ t. c ∷ t) e;
      last_alnum = is_alnum_sound last alnum;
      inside = (
        inside_label c (ground (arith, h)),
        All-map inside_label (d ∷ s) (rest-All (d ∷ s) (ground (arith, h))),
      );
    }

matched :
    (first last : ℕ) (behind before : Text)
    → first ∷ behind ≡ before ++ last ∷ []
    → IsAlnum first
    → IsAlnum last
    → All (λ c. IsAlnum c ⊎ (c ≡ b'-')) (before ++ last ∷ [])
    → match_label (before ++ last ∷ []) ≡ true
unfolding match_label
matched first last behind [] e f l inside = ground (arith, is_alnum_complete last l)
matched first last behind (c ∷ before) e f l (k, ks) =
    let same : first ≡ c = cc in
    let tests = All-map label_inside (before ++ last ∷ []) ks in
    ground (
      arith,
      is_alnum_complete first f,
      same,
      match_rest-append before last (All-append_left _ before (last ∷ []) tests)
          (is_alnum_complete last l),
    )

pub IsLabel-match_label : (s : Text) → IsLabel s → match_label s ≡ true
IsLabel-match_label s l = rw l.ends (
    matched l.first l.last l.behind l.before (rw (← l.starts) l.ends) l.first_alnum l.last_alnum
      (rw (← l.ends) l.inside))
