-- ===== src/Services/Management/Others.antt =====
-- The check of `prepareUpdatedSite` against the other sites, and what a replaced site does to a list
-- in which no two names and no two domains agree: daemon/internal/app/site_management.go.
use lara_nux.Base.{
  Bool, true, false, ◌&&◌, ◌||◌, not, List, [], ◌∷◌, Option, none, some, ◌≡◌, refl, arith, All,
  AllPairs, if◌then◌else◌, subst, ◌⊎◌, inl, inr,
}
use lara_nux.Text.{Text, Unicode, text_eq, text_eq_iff, equal_fold, equal_fold_symm}
use lara_nux.Effect.Fault.{ok}
use lara_nux.Sites.Record.{SiteRecord}
use lara_nux.Sites.Registry.{replace_first}
use lara_nux.Sites.Registry.Unique.{IsApart, IsUnique}
use lara_nux.Services.Management.{check_others}

-- No two sites of the list have the same id.
abbrev pub IsKeyed : List SiteRecord → Type 0
IsKeyed = AllPairs (λ a b. text_eq a.id b.id ≡ false)

pub replace_step :
    (here : Bool) (s new : SiteRecord) (sites : List SiteRecord) (r : Option (List SiteRecord))
    → (sites' : List SiteRecord)
    → (if here then some (new ∷ sites) else elim r [ none ↦ none | some t ↦ some (s ∷ t) ])
      ≡ some sites'
    → ((here ≡ true) × (new ∷ sites ≡ sites'))
      ⊎ ((t : List SiteRecord) × (here ≡ false) × (r ≡ some t) × (s ∷ t ≡ sites'))
replace_step true s new sites r sites' h = inl (refl, (let e : new ∷ sites ≡ sites' = cc in e))
replace_step false s new sites none sites' h = cc
replace_step false s new sites (some t) sites' h =
    inr (t, refl, refl, (let e : s ∷ t ≡ sites' = cc in e))

pub replace_first-All :
    (P : SiteRecord → Type 0) (id : Text) (new : SiteRecord) (sites sites' : List SiteRecord)
    → replace_first id new sites ≡ some sites'
    → P new
    → All P sites
    → All P sites'
unfolding replace_first
replace_first-All P id new [] sites' h p all = cc
replace_first-All P id new (s ∷ sites) sites' h p (q, qs) =
    elim (replace_step (text_eq s.id id) s new sites (replace_first id new sites) sites' h) [
      | inl (_, e) ↦ subst (All P) e (p, qs)
      | inr (t, _, e, e') ↦ subst (All P) e' (q, replace_first-All P id new sites t e p qs)
    ]

module _ ⦃u : Unicode⦄ where
  -- The site is the one that is updated, or it shares neither the name nor the domain.
  abbrev pub spares : Text → Text → Text → SiteRecord → Bool
  spares id name domain s =
      text_eq s.id id || (not (equal_fold s.name name) && not (equal_fold s.domain domain))

  pub check_others_sound :
      (id name domain : Text) (sites : List SiteRecord)
      → check_others id name domain sites ≡ ok tt
      → All (λ s. spares id name domain s ≡ true) sites
  unfolding check_others
  check_others_sound id name domain [] h = tt
  check_others_sound id name domain (s ∷ sites) h =
      (ground arith, check_others_sound id name domain sites (ground arith))

  spared_replaced :
      (id : Text) (s new : SiteRecord) (sites : List SiteRecord)
      → text_eq s.id id ≡ true
      → All (λ t. text_eq s.id t.id ≡ false) sites
      → All (λ t. spares id new.name new.domain t ≡ true) sites
      → All (IsApart new) sites
  spared_replaced id s new [] here _ _ = tt
  spared_replaced id s new (t ∷ sites) here (k, ks) (p, ps) = (
    (
      ground (
        arith,
        text_eq_iff s.id id,
        text_eq_iff t.id id,
        text_eq_iff s.id t.id,
        equal_fold_symm t.name new.name,
      ),
      ground (
        arith,
        text_eq_iff s.id id,
        text_eq_iff t.id id,
        text_eq_iff s.id t.id,
        equal_fold_symm t.domain new.domain,
      ),
    ),
    spared_replaced id s new sites here ks ps,
  )

  spared_kept :
      (id : Text) (s new : SiteRecord)
      → text_eq s.id id ≡ false
      → spares id new.name new.domain s ≡ true
      → IsApart s new
  spared_kept id s new e p = (ground arith, ground arith)

  -- A site that the others are spared by can take its place among them.
  pub replace_first-IsUnique :
      (id : Text) (new : SiteRecord) (sites sites' : List SiteRecord)
      → replace_first id new sites ≡ some sites'
      → IsKeyed sites
      → All (λ s. spares id new.name new.domain s ≡ true) sites
      → IsUnique sites
      → IsUnique sites'
  unfolding replace_first
  replace_first-IsUnique id new [] sites' h keyed spared unique = cc
  replace_first-IsUnique id new (s ∷ sites) sites' h (k, ks) (p, ps) (apart, unique) =
      elim (replace_step (text_eq s.id id) s new sites (replace_first id new sites) sites' h) [
        | inl (here, e) ↦ subst IsUnique e (spared_replaced id s new sites here k ps, unique)
        | inr (t, there, e, e') ↦ subst IsUnique e' (
          replace_first-All (IsApart s) id new sites t e (spared_kept id s new there p) apart,
          replace_first-IsUnique id new sites t e ks ps unique,
        )
      ]
