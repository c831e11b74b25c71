-- ===== src/Assets/Tracked.antt =====
-- A manifest is a finite map from the ids of its assets: daemon/internal/app/managed_assets.go
-- against the map that its operations update.
use lara_nux.Base.{
  Bool, false, List, [], ◌∷◌, Option, none, some, ◌≡◌, refl, arith, All, AllPairs, Bool-cases, inl,
  inr, ap, ◌∙◌, fun_ext, subst, find, filter, not, if◌then◌else◌,
}
use lara_nux.Text.{Text, text_eq, text_eq_iff}
use lara_nux.Assets.Manifest.{ManagedAsset, ManagedAssetManifest, put_asset, track, remove_asset}

-- The asset of an id.
unfoldable pub asset_of : ManagedAssetManifest → Text → Option ManagedAsset
unfolding find
asset_of m id = find (λ a. text_eq a.id id) m.assets

abbrev Differ : ManagedAsset → ManagedAsset → Type 0
Differ a b = text_eq b.id a.id ≡ false

-- No two assets have the same id.
abbrev pub HasDistinctIds : ManagedAssetManifest → Type 0
HasDistinctIds m = AllPairs Differ m.assets

pub data Change : Type 0 where
  tracked : ManagedAsset → Change
  removed : Text → Change

-- The calls of `Track` and `Remove`, the first one first.
unfoldable pub changed : List Change → ManagedAssetManifest → ManagedAssetManifest
unfolding track remove_asset
changed [] m = m
changed (tracked asset ∷ changes) m = changed changes (track asset m)
changed (removed id ∷ changes) m = changed changes (remove_asset id m)

-- The same changes of a map.
unfoldable pub replay : List Change → (Text → Option ManagedAsset) → Text → Option ManagedAsset
unfolding text_eq
replay [] f = f
replay (tracked asset ∷ changes) f =
    replay changes (λ id. if text_eq asset.id id then some asset else f id)
replay (removed id ∷ changes) f = replay changes (λ q. if text_eq id q then none else f q)

find-put :
    (asset : ManagedAsset) (q : Text) (assets : List ManagedAsset)
    → find (λ a. text_eq a.id q) (put_asset asset assets)
      ≡ (if text_eq asset.id q then some asset else find (λ a. text_eq a.id q) assets)
unfolding find put_asset
find-put asset q [] = ground arith
find-put asset q (a ∷ assets) = elim (Bool-cases (text_eq a.id asset.id)) [
  | inl e ↦ rw e (rw ((text_eq_iff a.id asset.id).0 e) (ground arith))
  | inr e ↦ rw e (
      ground (
        arith,
        find-put asset q assets,
        text_eq_iff a.id asset.id,
        text_eq_iff a.id q,
        text_eq_iff asset.id q,
      ))
]

find-filter :
    (id q : Text) (assets : List ManagedAsset)
    → find (λ a. text_eq a.id q) (filter (λ a. not (text_eq a.id id)) assets)
      ≡ (if text_eq id q then none else find (λ a. text_eq a.id q) assets)
unfolding find filter
find-filter id q [] = ground arith
find-filter id q (a ∷ assets) = elim (Bool-cases (text_eq a.id id)) [
  | inl e ↦ rw e (ground (arith, find-filter id q assets, text_eq_iff a.id id))
  | inr e ↦ rw e (
      ground
        (arith, find-filter id q assets, text_eq_iff a.id id, text_eq_iff a.id q, text_eq_iff id q))
]

put-All :
    (P : ManagedAsset → Type 0) (asset : ManagedAsset) (assets : List ManagedAsset)
    → P asset
    → All P assets
    → All P (put_asset asset assets)
unfolding put_asset
put-All P asset [] p _ = (p, tt)
put-All P asset (a ∷ assets) p (h, hs) = elim (Bool-cases (text_eq a.id asset.id)) [
  | inl e ↦ rw e (p, hs)
  | inr e ↦ rw e (h, put-All P asset assets p hs)
]

put-Differ :
    (asset : ManagedAsset) (assets : List ManagedAsset)
    → AllPairs Differ assets
    → AllPairs Differ (put_asset asset assets)
unfolding put_asset
put-Differ asset [] _ = (tt, tt)
put-Differ asset (a ∷ assets) (h, hs) = elim (Bool-cases (text_eq a.id asset.id)) [
  | inl e ↦ rw e (
    subst (λ i. All (λ b. text_eq b.id i ≡ false) assets) ((text_eq_iff a.id asset.id).0 e) h,
    hs,
  )
  | inr e ↦ rw e (
    put-All (Differ a) asset assets
        (ground (arith, text_eq_iff a.id asset.id, text_eq_iff asset.id a.id)) h,
    put-Differ asset assets hs,
  )
]

changed-find :
    (changes : List Change) (m : ManagedAssetManifest) (id : Text)
    → asset_of (changed changes m) id ≡ replay changes (asset_of m) id
unfolding changed replay
changed-find [] m id = refl
changed-find (tracked asset ∷ changes) m id =
    changed-find changes (track asset m) id
    ∙ ap (λ f. replay changes f id)
        (fun_ext (λ q. unfold asset_of track in find-put asset q m.assets))
changed-find (removed x ∷ changes) m id =
    changed-find changes (remove_asset x m) id
    ∙ ap (λ f. replay changes f id)
        (fun_ext (λ q. unfold asset_of remove_asset in find-filter x q m.assets))

filter-All_kept :
    (P : ManagedAsset → Type 0) (p : ManagedAsset → Bool) (assets : List ManagedAsset)
    → All P assets
    → All P (filter p assets)
unfolding filter
filter-All_kept P p [] _ = tt
filter-All_kept P p (a ∷ assets) (h, hs) = elim (Bool-cases (p a)) [
  | inl e ↦ rw e (h, filter-All_kept P p assets hs)
  | inr e ↦ rw e (filter-All_kept P p assets hs)
]

filter-Differ :
    (p : ManagedAsset → Bool) (assets : List ManagedAsset)
    → AllPairs Differ assets
    → AllPairs Differ (filter p assets)
unfolding filter
filter-Differ p [] _ = tt
filter-Differ p (a ∷ assets) (h, hs) = elim (Bool-cases (p a)) [
  | inl e ↦ rw e (filter-All_kept (Differ a) p assets h, filter-Differ p assets hs)
  | inr e ↦ rw e (filter-Differ p assets hs)
]

changed-HasDistinctIds :
    (changes : List Change) (m : ManagedAssetManifest)
    → HasDistinctIds m
    → HasDistinctIds (changed changes m)
unfolding changed
changed-HasDistinctIds [] m h = h
changed-HasDistinctIds (tracked asset ∷ changes) m h =
    changed-HasDistinctIds changes (track asset m) (unfold track in put-Differ asset m.assets h)
changed-HasDistinctIds (removed x ∷ changes) m h =
    changed-HasDistinctIds changes (remove_asset x m)
      (unfold remove_asset in filter-Differ (λ a. not (text_eq a.id x)) m.assets h)

-- Any calls of Track and Remove on a manifest whose assets have different ids leave one whose
-- assets have different ids, and it finds at every id what the map from ids to assets holds
-- there behind the same changes.
pub changed_refines :
    (changes : List Change) (m : ManagedAssetManifest) (id : Text)
    → HasDistinctIds m
    → HasDistinctIds (changed changes m)
      × (asset_of (changed changes m) id ≡ replay changes (asset_of m) id)
changed_refines changes m id h = (changed-HasDistinctIds changes m h, changed-find changes m id)
