-- ===== src/Sites/Domain/Sound.antt =====
-- What `normalizeDomain` accepts.
use lara_nux.Base.{
  ℕ, ◌≤◌, true, false, List, [], ◌∷◌, ◌++◌, is_empty, ◌≡◌, ◌≢◌, refl, ◌⊎◌, inl, inr, arith, All,
  All-map, All-append, none, some, ◌↔◌, if◌then◌else◌, Option-cases, sym, ap, subst, ◌∙◌,
}
use lara_nux.Text.{
  Text, Unicode, codes, trim_space, to_lower, has_suffix, trim_suffix, split, strip_suffix,
  strip_suffix_sound, strip_suffix-append_self, split-All, is_space, trim_space_kept, lower_rune,
}
use lara_nux.Effect.Fault.{ok}
use lara_nux.Sites.Domain.Shape.{IsLabel, match_label-IsLabel, IsLabel-match_label}
use lara_nux.Sites.Domain.{
  is_label_char, match_rest, match_label, dot_test, check_labels, check_domain, normalize_domain,
}

-- A digit, a lower case letter, a dash or a dot.
abbrev pub IsPlain : ℕ → Type 0
IsPlain c = (c ≡ b'-') ⊎ (c ≡ b'.') ⊎ ((b'0' ≤ c) × (c ≤ b'9')) ⊎ ((b'a' ≤ c) × (c ≤ b'z'))

label_char-IsPlain : (c : ℕ) → is_label_char c ≡ true → IsPlain c
label_char-IsPlain c h = ground arith

IsPlain-space : (c : ℕ) → IsPlain c → is_space c ≡ false
unfolding is_space
IsPlain-space c h = ground arith

match_rest-All : (s : Text) → match_rest s ≡ true → All (λ c. is_label_char c ≡ true) s
unfolding match_rest
match_rest-All [] h = tt
match_rest-All (c ∷ []) h = ground arith
match_rest-All (c ∷ d ∷ s) h = ground (arith, match_rest-All (d ∷ s))

pub match_label-All : (s : Text) → match_label s ≡ true → All (λ c. is_label_char c ≡ true) s
unfolding match_label
match_label-All [] h = tt
match_label-All (c ∷ []) h = ground arith
match_label-All (c ∷ d ∷ s) h = ground (arith, match_rest-All (d ∷ s))

pub match_label-IsPlain : (s : Text) → match_label s ≡ true → All IsPlain s
match_label-IsPlain s h = All-map label_char-IsPlain s (match_label-All s h)

IsLabel-IsPlain : (s : Text) → IsLabel s → All IsPlain s
IsLabel-IsPlain s l = match_label-IsPlain s (IsLabel-match_label s l)

-- Plain text is its own lower case, and has no space around it.
lower_rune-IsPlain : ⦃u : Unicode⦄ → (c : ℕ) → IsPlain c → lower_rune c ≡ c
unfolding lower_rune
lower_rune-IsPlain c h = ground arith

to_lower-IsPlain : ⦃u : Unicode⦄ → (s : Text) → All IsPlain s → to_lower s ≡ s
unfolding to_lower
to_lower-IsPlain [] _ = refl
to_lower-IsPlain (c ∷ s) (h, hs) = cc (lower_rune-IsPlain c h, to_lower-IsPlain s hs)

pub trimmed_lower-IsPlain : ⦃u : Unicode⦄ → (s : Text) → All IsPlain s → to_lower (trim_space s) ≡ s
trimmed_lower-IsPlain s h =
    rw (trim_space_kept s (All-map IsPlain-space s h)) (to_lower-IsPlain s h)

-- What an accepted domain looks like.
pub record IsDomain (value : Text) : Type 0 where
  pub host : Text
  pub ends : value ≡ host ++ codes ".test"
  pub named : host ≢ []
  pub labels : All IsLabel (split b'.' host)

module _ ⦃u : Unicode⦄ where
  check_labels-All : (ls : List Text) → check_labels ls ≡ ok tt → All IsLabel ls
  unfolding check_labels
  check_labels-All [] h = tt
  check_labels-All (l ∷ ls) h =
      (match_label-IsLabel l (ground (arith, h)), check_labels-All ls (ground (arith, h)))

  All-check_labels : (ls : List Text) → All IsLabel ls → check_labels ls ≡ ok tt
  unfolding check_labels
  All-check_labels [] _ = refl
  All-check_labels (l ∷ ls) (k, ks) =
      ground (arith, IsLabel-match_label l k, All-check_labels ls ks)

  -- The tests behind `strings.TrimSuffix`, for a host that has passed it.
  host_tests :
      (v host : Text)
      → strip_suffix dot_test v ≡ some host
      → {d : Text} → check_domain v ≡ ok d
      → (d ≡ v) × (host ≢ []) × (check_labels (split b'.' host) ≡ ok tt)
  unfolding check_domain has_suffix trim_suffix
  host_tests v host e h = ground arith

  suffix_tested : (v : Text) {d : Text} → check_domain v ≡ ok d → strip_suffix dot_test v ≢ none
  unfolding check_domain has_suffix
  suffix_tested v h = ground arith

  check_domain-IsDomain : (v : Text) {d : Text} → check_domain v ≡ ok d → (d ≡ v) × IsDomain v
  check_domain-IsDomain v h = elim (Option-cases (strip_suffix dot_test v)) [
    | inl e ↦ absurd (suffix_tested v h e)
    | inr (host, e) ↦
        let (same, named, labels) = host_tests v host e h in
        (
          same,
          record {
            host = host;
            ends = strip_suffix_sound dot_test v host e;
            named = named;
            labels = check_labels-All (split b'.' host) labels;
          },
        )
  ]

  -- A domain is plain text: labels, and the dots between them and before `test`.
  pub IsDomain-IsPlain : (v : Text) → IsDomain v → All IsPlain v
  IsDomain-IsPlain v d = rw d.ends (
      All-append IsPlain d.host dot_test
        (split-All IsPlain b'.' d.host (ground arith) (All-map IsLabel-IsPlain _ d.labels))
        (ground arith))

  -- A single label under `.test` passes every test.
  pub check_host :
      (label : Text)
      → split b'.' label ≡ label ∷ []
      → match_label label ≡ true
      → check_domain (label ++ dot_test) ≡ ok (label ++ dot_test)
  unfolding check_domain has_suffix trim_suffix check_labels
  check_host [] one h = unfold match_label in cc
  check_host (c ∷ s) one h = let e = strip_suffix-append_self dot_test (c ∷ s) in ground (arith, e)

  check_domain-accepted :
      (v : Text) {d : Text} → check_domain v ≡ ok d → IsDomain d × (check_domain d ≡ ok d)
  check_domain-accepted v {d} h =
      let (same, domain) = check_domain-IsDomain v h in
      subst (λ x. IsDomain x × (check_domain x ≡ ok x)) (sym same) (domain, h ∙ ap ok same)

  accepted :
      (raw fallback : Text) {d : Text}
      → normalize_domain raw fallback ≡ ok d
      → IsDomain d × (check_domain d ≡ ok d)
  unfolding normalize_domain
  accepted raw fallback h = check_domain-accepted _ h

  IsDomain-ne-nil : (v : Text) → IsDomain v → is_empty v ≡ false
  IsDomain-ne-nil [] d = absurd (d.named (nil_host d.host d.ends))
    where
      nil_host : (host : Text) → [] ≡ host ++ dot_test → host ≡ []
      nil_host [] e = refl
      nil_host (c ∷ host) e = cc
  IsDomain-ne-nil (c ∷ v) d = refl

  pub normalize_domain-IsDomain :
      (raw fallback d : Text) → normalize_domain raw fallback ≡ ok d → IsDomain d
  normalize_domain-IsDomain raw fallback d h = (accepted raw fallback h).0

  host_accepted :
      (host : Text)
      → host ≢ []
      → All IsLabel (split b'.' host)
      → check_domain (host ++ dot_test) ≡ ok (host ++ dot_test)
  unfolding check_domain has_suffix trim_suffix
  host_accepted [] named labels = absurd (named refl)
  host_accepted (c ∷ s) named labels =
      let stripped = strip_suffix-append_self dot_test (c ∷ s) in
      let checked = All-check_labels (split b'.' (c ∷ s)) labels in
      ground (arith, stripped, checked)

  IsDomain-accepted : (d : Text) → IsDomain d → check_domain d ≡ ok d
  IsDomain-accepted d domain = rw domain.ends (host_accepted domain.host domain.named domain.labels)

  check_domain_iff : (v d : Text) → (check_domain v ≡ ok d) ↔ ((d ≡ v) × IsDomain d)
  check_domain_iff v d = (
    λ h. ((check_domain-IsDomain v h).0, (check_domain-accepted v h).0),
    λ h. rw (← h.0) (IsDomain-accepted d h.1),
  )

  -- normalizeDomain accepts exactly the domains that are a host that is not empty with .test
  -- behind it, where every dot-separated label of the host has digits, lower case letters and
  -- dashes only and a digit or a letter at both ends. It returns the given domain, trimmed and
  -- in lower case, or the fallback name with .test behind it where that is empty.
  pub normalize_domain_iff :
      (raw fallback d : Text)
      → (normalize_domain raw fallback ≡ ok d) ↔ (
          (d ≡ (
            if is_empty (to_lower (trim_space raw))
            then fallback ++ codes ".test"
            else to_lower (trim_space raw)))
          × IsDomain d)
  unfolding normalize_domain
  normalize_domain_iff raw fallback d = check_domain_iff _ d

  -- A domain that normalizeDomain accepted is accepted again, unchanged, under any fallback
  -- name.
  pub normalize_domain_idem :
      (raw fallback d other : Text)
      → normalize_domain raw fallback ≡ ok d
      → normalize_domain d other ≡ ok d
  unfolding normalize_domain
  normalize_domain_idem raw fallback d other h =
      let (domain, again) = accepted raw fallback h in
      rw (trimmed_lower-IsPlain d (IsDomain-IsPlain d domain), IsDomain-ne-nil d domain) again
