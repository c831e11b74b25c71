-- ===== src/Base/Permuted.antt =====
-- Lists with the same items in another order, and that the sort does not tell them apart where it
-- separates the items.
use mathlib.Core.Path.{◌≡◌, refl, ◌∙◌, subst}
use mathlib.Core.Bool.{Bool, true, false}
use mathlib.Core.List.{List, Permᴰ}
use native.Mathlib.Omega.{arith}
use lara_nux.Base.Lists.{All, AllPairs}
use lara_nux.Base.Sorting.{sort, Separates, insert_sorted_comm}

pub All-permᴰ {ℓ κ} :
    {A : Type ℓ} (P : A → Type κ) {xs ys : List A} → Permᴰ xs ys → All P xs → All P ys
All-permᴰ P Permᴰ.nil _ = tt
All-permᴰ P (Permᴰ.cons e d) (p, ps) = (subst P e p, All-permᴰ P d ps)
All-permᴰ P (Permᴰ.swap e e') (p, (q, ps)) = (subst P e' q, (subst P e p, ps))
All-permᴰ P (Permᴰ.trans d d') ps = All-permᴰ P d' (All-permᴰ P d ps)

pub AllPairs-permᴰ {ℓ κ} :
    {A : Type ℓ} (R : A → A → Type κ) (symm : (a b : A) → R a b → R b a) {xs ys : List A}
    → Permᴰ xs ys
    → AllPairs R xs
    → AllPairs R ys
AllPairs-permᴰ R symm Permᴰ.nil _ = tt
AllPairs-permᴰ R symm (Permᴰ.cons {l₂ = ys} e d) (h, hs) =
    (subst (λ a. All (R a) ys) e (All-permᴰ (R _) d h), AllPairs-permᴰ R symm d hs)
AllPairs-permᴰ R symm (Permᴰ.swap {a = a} {b = b} {b' = b'} {l = l} e e') ((ab, al), (bl, ll)) = (
  (subst (λ x. R x b') e' (subst (λ y. R b y) e (symm a b ab)), subst (λ x. All (R x) l) e' bl),
  (subst (λ x. All (R x) l) e al, ll),
)
AllPairs-permᴰ R symm (Permᴰ.trans d d') h = AllPairs-permᴰ R symm d' (AllPairs-permᴰ R symm d h)

module _ {ℓ} {A : Type ℓ} (before : A → A → Bool)
    (asymm : (x y : A) → before x y ≡ true → before y x ≡ false)
    (le_trans : (x y z : A) → before y x ≡ false → before z y ≡ false → before z x ≡ false) where
  Separates-symm :
      (x y : A) → Separates before asymm le_trans x y → Separates before asymm le_trans y x
  Separates-symm x y h = ground (arith, h)

  pub sort-permᴰ :
      {xs ys : List A}
      → Permᴰ xs ys
      → AllPairs (Separates before asymm le_trans) xs
      → sort before xs ≡ sort before ys
  unfolding sort
  sort-permᴰ Permᴰ.nil _ = refl
  sort-permᴰ (Permᴰ.cons e d) (_, hs) = cc (e, sort-permᴰ d hs)
  sort-permᴰ (Permᴰ.swap {a = a} {b = b} {l = l} e e') ((ab, _), _) =
      rw (← e, ← e') (insert_sorted_comm before asymm le_trans a b (sort before l) ab)
  sort-permᴰ (Permᴰ.trans d d') h =
      sort-permᴰ d h ∙ sort-permᴰ d' (AllPairs-permᴰ _ Separates-symm d h)
