-- ===== src/Sites/Registry/Unique.antt =====
-- Sites that no two names and no two domains of fold together, and the list operations of the
-- registry on them.
use lara_nux.Base.{
  Bool, true, false, List, [], ◌∷◌, ◌++◌, Option, none, some, ◌≡◌, refl, arith, All, All-append,
  find, if◌then◌else◌, ◌↔◌, subst, ◌⊎◌, inl, inr,
}
use lara_nux.Text.{Text, Unicode, equal_fold, text_eq, text_eq_iff, text_eq_refl}
use lara_nux.Effect.Fault.{ok}
use lara_nux.Sites.Record.{SiteRecord}
use lara_nux.Sites.Registry.{check_duplicates, replace_first, remove_first, with_id}

-- The list that a step of `remove_first` returns is one of two.
remove_step :
    (here : Bool) (s : SiteRecord) (sites : List SiteRecord) (r : Option (List SiteRecord))
    → (sites' : List SiteRecord)
    → (if here then some sites else elim r [ none ↦ none | some t ↦ some (s ∷ t) ]) ≡ some sites'
    → (sites ≡ sites') ⊎ ((t : List SiteRecord) × (r ≡ some t) × (s ∷ t ≡ sites'))
remove_step true s sites r sites' h = inl (let e : sites ≡ sites' = cc in e)
remove_step false s sites none sites' h = cc
remove_step false s sites (some t) sites' h = inr (t, refl, (let e : s ∷ t ≡ sites' = cc in e))

remove_first-All :
    (P : SiteRecord → Type 0) (id : Text) (sites sites' : List SiteRecord)
    → remove_first id sites ≡ some sites'
    → All P sites
    → All P sites'
unfolding remove_first
remove_first-All P id [] sites' h all = cc
remove_first-All P id (s ∷ sites) sites' h (p, ps) =
    elim (remove_step (text_eq s.id id) s sites (remove_first id sites) sites' h) [
      | inl e ↦ subst (All P) e ps
      | inr (t, e, e') ↦ subst (All P) e' (p, remove_first-All P id sites t e ps)
    ]

module _ ⦃u : Unicode⦄ where
  abbrev pub IsApart : SiteRecord → SiteRecord → Type 0
  IsApart a b = (equal_fold a.name b.name ≡ false) × (equal_fold a.domain b.domain ≡ false)

  -- No two sites of the list share a name or a domain, whatever the case of the letters.
  abbrev pub IsUnique : List SiteRecord → Type 0
  IsUnique [] = Unit
  IsUnique (site ∷ sites) = All (IsApart site) sites × IsUnique sites

  pub IsUnique-append :
      (sites : List SiteRecord) (site : SiteRecord)
      → IsUnique sites
      → All (λ s. IsApart s site) sites
      → IsUnique (sites ++ site ∷ [])
  IsUnique-append [] site _ _ = (tt, tt)
  IsUnique-append (s ∷ sites) site (apart, unique) (h, hs) =
      (All-append _ sites (site ∷ []) apart (h, tt), IsUnique-append sites site unique hs)

  -- The loop of Register over the stored sites accepts a name and a domain exactly if no stored
  -- site has the name or the domain, case aside.
  pub check_duplicates_iff :
      (name domain : Text) (sites : List SiteRecord)
      → (check_duplicates name domain sites ≡ ok tt)
        ↔ All (λ s. (equal_fold s.name name ≡ false) × (equal_fold s.domain domain ≡ false)) sites
  unfolding check_duplicates
  check_duplicates_iff name domain [] = (λ _. tt, λ _. refl)
  check_duplicates_iff name domain (s ∷ sites) =
      let ih = check_duplicates_iff name domain sites in
      (λ h. ground (arith, ih.0), λ h. ground (arith, ih.1 h.1))

  pub remove_first-IsUnique :
      (id : Text) (sites sites' : List SiteRecord)
      → remove_first id sites ≡ some sites'
      → IsUnique sites
      → IsUnique sites'
  unfolding remove_first
  remove_first-IsUnique id [] sites' h all = cc
  remove_first-IsUnique id (s ∷ sites) sites' h (apart, unique) =
      elim (remove_step (text_eq s.id id) s sites (remove_first id sites) sites' h) [
        | inl e ↦ subst IsUnique e unique
        | inr (t, e, e') ↦ subst IsUnique e' (
          remove_first-All (IsApart s) id sites t e apart,
          remove_first-IsUnique id sites t e unique,
        )
      ]

abbrev pub HasId : Text → SiteRecord → Type 0
HasId id site = text_eq site.id id ≡ true

-- No site of the list has the id.
abbrev pub LacksId : Text → List SiteRecord → Type 0
LacksId id = All (λ s. text_eq s.id id ≡ false)

-- Deleting the site that was appended last gives the list back, if its id is new.
pub remove_first-append :
    (sites : List SiteRecord) (site : SiteRecord)
    → LacksId site.id sites
    → remove_first site.id (sites ++ site ∷ []) ≡ some sites
unfolding remove_first
remove_first-append [] site _ = ground (arith, text_eq_refl site.id)
remove_first-append (s ∷ sites) site (h, hs) = ground (arith, remove_first-append sites site hs)

-- Looking for the appended site finds it, if its id is new.
pub find-append :
    (sites : List SiteRecord) (site : SiteRecord)
    → LacksId site.id sites
    → find (with_id site.id) (sites ++ site ∷ []) ≡ some site
unfolding find
find-append [] site _ = ground (arith, text_eq_refl site.id)
find-append (s ∷ sites) site (h, hs) = ground (arith, find-append sites site hs)

-- A replaced site is what its id finds, and any other id finds what it found.
pub find-replace_first :
    (id other : Text) (new : SiteRecord) (sites sites' : List SiteRecord)
    → text_eq new.id id ≡ true
    → replace_first id new sites ≡ some sites'
    → find (with_id other) sites'
      ≡ (if text_eq id other then some new else find (with_id other) sites)
unfolding find replace_first
find-replace_first id other new [] sites' same h = cc
find-replace_first id other new (s ∷ sites) sites' same h =
    step (replace_first id new sites) (λ t e. find-replace_first id other new sites t same e) h
  where
    step :
        (r : Option (List SiteRecord))
        → ((t : List SiteRecord)
            → r ≡ some t
            → find (with_id other) t
              ≡ (if text_eq id other then some new else find (with_id other) sites))
        → (if text_eq s.id id
            then some (new ∷ sites)
            else elim r [ none ↦ none | some t ↦ some (s ∷ t) ])
          ≡ some sites'
        → find (with_id other) sites'
          ≡ (if text_eq id other then some new else find (with_id other) (s ∷ sites))
    step none ih h = ground (
      arith,
      text_eq_iff new.id id,
      text_eq_iff s.id id,
      text_eq_iff s.id other,
      text_eq_iff new.id other,
      text_eq_iff id other,
    )
    step (some t) ih h = ground (
      arith,
      text_eq_iff new.id id,
      text_eq_iff s.id id,
      text_eq_iff s.id other,
      text_eq_iff new.id other,
      text_eq_iff id other,
      ih t,
    )
