-- ===== src/Services/Management/Keyed.antt =====
-- A site that takes the place of the one with its id, in a list in which no two sites share an id,
-- a name or a domain: daemon/internal/app/site_registry.go.
use lara_nux.Base.{
  true, false, List, [], ◌∷◌, ◌++◌, some, ◌≡◌, arith, All, All-append, subst, find, find-All,
  Bool-cases, inl, inr,
}
use lara_nux.Text.{Text, Unicode, text_eq, text_eq_iff, equal_fold_symm}
use lara_nux.Sites.Record.{SiteRecord}
use lara_nux.Sites.Registry.{replace_first, with_id}
use lara_nux.Sites.Registry.Unique.{IsApart, IsUnique, LacksId}
use lara_nux.Services.Management.Others.{IsKeyed, spares, replace_step, replace_first-All}

pub IsKeyed-append :
    (sites : List SiteRecord) (site : SiteRecord)
    → IsKeyed sites
    → LacksId site.id sites
    → IsKeyed (sites ++ site ∷ [])
IsKeyed-append [] site _ _ = (tt, tt)
IsKeyed-append (s ∷ sites) site (apart, keyed) (h, hs) =
    (All-append _ sites (site ∷ []) apart (h, tt), IsKeyed-append sites site keyed hs)

renamed :
    (id : Text) (s new : SiteRecord) (sites : List SiteRecord)
    → new.id ≡ id
    → text_eq s.id id ≡ true
    → All (λ t. text_eq s.id t.id ≡ false) sites
    → All (λ t. text_eq new.id t.id ≡ false) sites
renamed id s new sites same here apart =
    let e : new.id ≡ s.id = ground (arith, text_eq_iff s.id id, same) in rw e apart

pub replace_first-IsKeyed :
    (id : Text) (new : SiteRecord) (sites sites' : List SiteRecord)
    → replace_first id new sites ≡ some sites'
    → new.id ≡ id
    → IsKeyed sites
    → IsKeyed sites'
unfolding replace_first
replace_first-IsKeyed id new [] sites' h same keyed = cc
replace_first-IsKeyed id new (s ∷ sites) sites' h same (k, ks) =
    elim (replace_step (text_eq s.id id) s new sites (replace_first id new sites) sites' h) [
      | inl (here, e) ↦ subst IsKeyed e (renamed id s new sites same here k, ks)
      | inr (t, there, e, e') ↦ subst IsKeyed e' (
        replace_first-All (λ t. text_eq s.id t.id ≡ false) id new sites t e (rw same there) k,
        replace_first-IsKeyed id new sites t e same ks,
      )
    ]

module _ ⦃u : Unicode⦄ where
  others_spared :
      (id : Text) (site : SiteRecord) (sites : List SiteRecord)
      → All (IsApart site) sites
      → All (λ t. spares id site.name site.domain t ≡ true) sites
  others_spared id site [] _ = tt
  others_spared id site (t ∷ sites) ((n, d), rest) = (
    ground (arith, n, d, equal_fold_symm t.name site.name, equal_fold_symm t.domain site.domain),
    others_spared id site sites rest,
  )

  -- Every other site is spared by the names of the one with the id.
  pub found-spares :
      (id : Text) (site : SiteRecord) (sites : List SiteRecord)
      → find (with_id id) sites ≡ some site
      → IsUnique sites
      → All (λ t. spares id site.name site.domain t ≡ true) sites
  unfolding find
  found-spares id site [] found unique = cc
  found-spares id site (s ∷ sites) found (apart, unique) = elim (Bool-cases (text_eq s.id id)) [
    | inl here ↦
        let same : s ≡ site = ground (arith, found, here) in
        (
          ground (arith, here),
          others_spared id site sites (subst (λ x. All (IsApart x) sites) same apart),
        )
    | inr there ↦
        let later : find (with_id id) sites ≡ some site = ground (arith, found, there) in
        let (n, d) = find-All (IsApart s) (with_id id) sites apart later in
        (ground (arith, n, d), found-spares id site sites later unique)
  ]
