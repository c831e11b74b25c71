-- ===== src/Sites/Registry/Methods.antt =====
-- What `List`, `Get`, `Update` and `Delete` return and store when they succeed.
use lara_nux.Base.{
  true, false, List, [], Option, none, some, ◌≡◌, arith, find, sort, if◌then◌else◌, ◌∷◌, sym, ◌∙◌,
  AllPairs, All-map, Separates, IsSorted-AllPairs, sort-permᴰ, sort-IsSorted, sort-perm,
  Option-cases, inl, inr,
}
use mathlib.Core.List.{Perm, Permᴰ}
use lara_nux.Text.{
  Text, Unicode, text_eq, text_eq_refl, text_lt, text_lt_asymm, text_lt_total, text_le_trans,
  text_eq_iff,
}
use lara_nux.Effect.Fault.{ok}
use lara_nux.Effect.Action.{◌>>=◌, check}
use lara_nux.World.{Os, StateFile, StateLaws}
use lara_nux.Sites.Record.{SiteRecord, SiteRegistryState}
use lara_nux.Sites.Registry.{
  list, get, update, delete, with_id, by_domain, replace_first, remove_first,
}
use lara_nux.Sites.Registry.Register.{load-stored}
use lara_nux.Sites.Registry.Unique.{find-replace_first}

abbrev or_nil : Option (List SiteRecord) → List SiteRecord
or_nil none = []
or_nil (some sites) = sites

by_domain_asymm : (a b : SiteRecord) → by_domain a b ≡ true → by_domain b a ≡ false
by_domain_asymm a b h = text_lt_asymm a.domain b.domain h

by_domain_trans :
    (a b c : SiteRecord) → by_domain b a ≡ false → by_domain c b ≡ false → by_domain c a ≡ false
by_domain_trans a b c h k = text_le_trans a.domain b.domain c.domain h k

separated :
    (a b : SiteRecord)
    → text_eq a.domain b.domain ≡ false
    → Separates by_domain by_domain_asymm by_domain_trans a b
separated a b h = ground (
  arith,
  h,
  text_eq_iff a.domain b.domain,
  text_lt_asymm a.domain b.domain,
  text_lt_total a.domain b.domain,
)

AllPairs-map :
    {R S : SiteRecord → SiteRecord → Type 0}
    → ((a b : SiteRecord) → R a b → S a b)
    → (xs : List SiteRecord) → AllPairs R xs
    → AllPairs S xs
AllPairs-map f [] _ = tt
AllPairs-map f (x ∷ xs) (h, hs) = (All-map (f x) xs h, AllPairs-map f xs hs)

module _ {σ : Type 0} (os : Os σ) (file : StateFile σ SiteRegistryState) (laws : StateLaws os file)
    ⦃u : Unicode⦄ where
  open laws use {
    content, load-content, content-load, content-save, content-save_failed, content-entropy,
  }

  abbrev Stored : List SiteRecord → σ → Type 0
  Stored sites w = content w ≡ some (record { sites = sites })

  -- `Get` returns the first stored site with the id.
  pub get_finds :
      (id : Text) (w : σ) (stored : List SiteRecord) (site : SiteRecord)
      → Stored stored w
      → (get os file id w).0 ≡ ok site
      → find (with_id id) stored ≡ some site
  unfolding get ◌>>=◌ check
  get_finds id w stored site s h = ground (arith, load-stored os file laws w)

  -- `Update` stores a site that its id finds from then on; what any other id finds stays.
  pub update_replaces :
      (site : SiteRecord) (w : σ) (stored : List SiteRecord) (site' : SiteRecord)
      → Stored stored w
      → (update os file site w).0 ≡ ok site'
      → (sites' : List SiteRecord) × Stored sites' (update os file site w).1
        × (replace_first site.id site' stored ≡ some sites')
        × (site'.id ≡ site.id)
        × (site'.name ≡ site.name)
        × (site'.domain ≡ site.domain)
  unfolding update ◌>>=◌ check
  update_replaces site w stored site' s h =
      let sites' = or_nil (replace_first site.id site' stored) in
      (
        sites',
        ground (
          arith,
          load-stored os file laws w,
          content-save (record { sites = sites' }) (file.load w).1,
        ),
        ground (arith, load-stored os file laws w),
        ground arith,
        ground arith,
        ground arith,
      )

  -- The site that is stored is the argument, with the stored time of creation and the time now.
  update_stamps :
      (site : SiteRecord) (w : σ) (stored : List SiteRecord) (site' : SiteRecord)
      → Stored stored w
      → (update os file site w).0 ≡ ok site'
      → (old : SiteRecord) × (find (with_id site.id) stored ≡ some old)
        × (site' ≡ record site { created_at = old.created_at; updated_at = os.now (file.load w).1 })
  unfolding update ◌>>=◌ check
  update_stamps site w stored site' s h = elim (Option-cases (find (with_id site.id) stored)) [
    | inl e ↦ absurd (ground (arith, load-stored os file laws w, e))
    | inr (old, e) ↦ (old, e, ground (arith, load-stored os file laws w, e))
  ]

  -- An Update that succeeds returns the given site with the time of creation of the stored site
  -- of its id and the time behind the load of the state as that of the update. Behind it the id
  -- of the site finds the returned site, and every other id finds what it found before.
  pub update_get :
      (site : SiteRecord) (w : σ) (stored : List SiteRecord) (site' : SiteRecord)
      → Stored stored w
      → (update os file site w).0 ≡ ok site'
      → (old : SiteRecord) × (sites' : List SiteRecord) × (find (with_id site.id) stored ≡ some old)
        × (site' ≡ record site { created_at = old.created_at; updated_at = os.now (file.load w).1 })
        × Stored sites' (update os file site w).1
        × ((id : Text)
            → find (with_id id) sites'
              ≡ (if text_eq site.id id then some site' else find (with_id id) stored))
  update_get site w stored site' s h =
      let (sites', behind, replaced, same, _, _) = update_replaces site w stored site' s h in
      let (old, found, stamped) = update_stamps site w stored site' s h in
      (
        old,
        sites',
        found,
        stamped,
        behind,
        λ id.
            find-replace_first site.id id site' stored sites' (rw same (text_eq_refl site.id))
              replaced,
      )

  -- A Delete that succeeds leaves the stored sites without the first one that has the id.
  pub delete_removes :
      (id : Text) (w : σ) (stored : List SiteRecord)
      → Stored stored w
      → (delete os file id w).0 ≡ ok tt
      → (sites' : List SiteRecord) × Stored sites' (delete os file id w).1
        × (remove_first id stored ≡ some sites')
  unfolding delete ◌>>=◌ check
  delete_removes id w stored s h =
      let sites' = or_nil (remove_first id stored) in
      (
        sites',
        ground (
          arith,
          load-stored os file laws w,
          content-save (record { sites = sites' }) (file.load w).1,
        ),
        ground (arith, load-stored os file laws w),
      )

  pub list_returns :
      (w : σ) (stored sites : List SiteRecord)
      → Stored stored w
      → (list os file w).0 ≡ ok sites
      → sites ≡ sort by_domain stored
  unfolding list ◌>>=◌ check
  list_returns w stored sites s h = ground (arith, load-stored os file laws w)

  -- List returns a permutation of the stored sites in which no site has a domain before that of
  -- any earlier one, in the lexical order.
  pub list-IsSorted :
      (w : σ) (stored sites : List SiteRecord)
      → Stored stored w
      → (list os file w).0 ≡ ok sites
      → AllPairs (λ a b. text_lt b.domain a.domain ≡ false) sites × Perm sites stored
  list-IsSorted w stored sites s h =
      let e : sites ≡ sort by_domain stored = list_returns w stored sites s h in
      rw e (
        IsSorted-AllPairs by_domain by_domain_asymm by_domain_trans (sort by_domain stored)
            (sort-IsSorted by_domain by_domain_asymm stored),
        sort-perm by_domain stored,
      )

  -- If two stores hold the same sites in any two orders, and no two of the sites have the same
  -- domain, then List returns the same list from both.
  pub list_canonical :
      (w w' : σ) (stored stored' sites sites' : List SiteRecord)
      → Stored stored w
      → Stored stored' w'
      → Permᴰ stored stored'
      → AllPairs (λ a b. text_eq a.domain b.domain ≡ false) stored
      → (list os file w).0 ≡ ok sites
      → (list os file w').0 ≡ ok sites'
      → sites ≡ sites'
  list_canonical w w' stored stored' sites sites' s s' p apart h h' =
      list_returns w stored sites s h
      ∙ (sort-permᴰ by_domain by_domain_asymm by_domain_trans p
            (AllPairs-map separated stored apart)
          ∙ sym (list_returns w' stored' sites' s' h'))
