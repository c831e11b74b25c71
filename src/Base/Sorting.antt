-- ===== src/Base/Sorting.antt =====
-- `sort.Slice` with a strict order `before`: an insertion sort, which is what the library runs on
-- short slices. The order of items that the comparison does not separate is the input's.
use mathlib.Core.Path.{◌≡◌, refl, ◌∙◌, ap}
use mathlib.Core.Bool.{Bool, true, false, not}
use mathlib.Core.List.{List, [], ◌∷◌, Perm}
use mathlib.Core.List.Perm
use mathlib.Core.Option.{some}
use native.Mathlib.Omega.{arith}
use lara_nux.Base.Tests.{if◌then◌else◌}
use lara_nux.Base.Lists.{All, AllPairs, find, All-map}

module _ {ℓ} {A : Type ℓ} (before : A → A → Bool) where
  pub insert_sorted : A → List A → List A
  insert_sorted x [] = x ∷ []
  insert_sorted x (y ∷ ys) =
      let later = insert_sorted x ys in if before y x then y ∷ later else x ∷ y ∷ ys

  unfoldable pub sort : List A → List A
  unfolding insert_sorted
  sort [] = []
  sort (x ∷ xs) = insert_sorted x (sort xs)

  -- No item stands behind one that it comes before.
  abbrev pub IsSorted : List A → Type 0
  IsSorted [] = Unit
  IsSorted (x ∷ []) = Unit
  IsSorted (x ∷ y ∷ ys) = (before y x ≡ false) × IsSorted (y ∷ ys)

  insert_step-perm :
      (b : Bool) (x y : A) (ys later : List A)
      → Perm later (x ∷ ys)
      → Perm (if b then y ∷ later else x ∷ y ∷ ys) (x ∷ y ∷ ys)
  insert_step-perm true x y ys later h = Perm.trans (Perm.cons y h) (Perm.swap x y ys)
  insert_step-perm false x y ys later h = Perm.refl (x ∷ y ∷ ys)

  insert_sorted-perm : (x : A) (xs : List A) → Perm (insert_sorted x xs) (x ∷ xs)
  unfolding insert_sorted
  insert_sorted-perm x [] = Perm.refl (x ∷ [])
  insert_sorted-perm x (y ∷ ys) =
      insert_step-perm (before y x) x y ys (insert_sorted x ys) (insert_sorted-perm x ys)

  pub sort-perm : (xs : List A) → Perm (sort xs) xs
  unfolding sort
  sort-perm [] = Perm.refl []
  sort-perm (x ∷ xs) = Perm.trans (insert_sorted-perm x (sort xs)) (Perm.cons x (sort-perm xs))

  module _ (asymm : (x y : A) → before x y ≡ true → before y x ≡ false) where
    insert_sorted-IsSorted : (x : A) (xs : List A) → IsSorted xs → IsSorted (insert_sorted x xs)
    unfolding insert_sorted
    insert_sorted-IsSorted x [] h = tt
    insert_sorted-IsSorted x (y ∷ []) h = ground (arith, asymm y x)
    insert_sorted-IsSorted x (y ∷ z ∷ zs) (h, hs) =
        ground (arith, asymm y x, insert_sorted-IsSorted x (z ∷ zs) hs)

    pub sort-IsSorted : (xs : List A) → IsSorted (sort xs)
    unfolding sort
    sort-IsSorted [] = tt
    sort-IsSorted (x ∷ xs) = insert_sorted-IsSorted x (sort xs) (sort-IsSorted xs)

  -- What holds of the items is kept by the sort, and so is what holds of every two of them.
  insert_sorted-All {κ} :
      (P : A → Type κ) (x : A) (xs : List A) → P x → All P xs → All P (insert_sorted x xs)
  unfolding insert_sorted
  insert_sorted-All P x [] p ps = (p, tt)
  insert_sorted-All P x (y ∷ ys) p (q, qs) = step (before y x) (insert_sorted-All P x ys p qs)
    where
      step :
          (b : Bool)
          → All P (insert_sorted x ys)
          → All P (if b then y ∷ insert_sorted x ys else x ∷ y ∷ ys)
      step true later = (q, later)
      step false later = (p, (q, qs))

  insert_sorted-AllPairs {κ} :
      (R : A → A → Type κ) (symm : (a b : A) → R a b → R b a) (x : A) (xs : List A)
      → All (R x) xs
      → AllPairs R xs
      → AllPairs R (insert_sorted x xs)
  unfolding insert_sorted
  insert_sorted-AllPairs R symm x [] h _ = (tt, tt)
  insert_sorted-AllPairs R symm x (y ∷ ys) (h, hs) (q, qs) =
      step (before y x) (insert_sorted-AllPairs R symm x ys hs qs)
    where
      step :
          (b : Bool)
          → AllPairs R (insert_sorted x ys)
          → AllPairs R (if b then y ∷ insert_sorted x ys else x ∷ y ∷ ys)
      step true later = (insert_sorted-All (R y) x ys (symm x y h) q, later)
      step false later = ((h, hs), (q, qs))

  pub sort-All {κ} : (P : A → Type κ) (xs : List A) → All P xs → All P (sort xs)
  unfolding sort
  sort-All P [] _ = tt
  sort-All P (x ∷ xs) (p, ps) = insert_sorted-All P x (sort xs) p (sort-All P xs ps)

  All-insert_step {κ} :
      (P : A → Type κ) (b : Bool) (x y : A) (ys later : List A)
      → (All P later → P x × All P ys)
      → All P (if b then y ∷ later else x ∷ y ∷ ys)
      → P x × All P (y ∷ ys)
  All-insert_step P true x y ys later ih (p, ps) = let (px, rest) = ih ps in (px, (p, rest))
  All-insert_step P false x y ys later ih all = all

  All-insert_sorted {κ} :
      (P : A → Type κ) (x : A) (ys : List A) → All P (insert_sorted x ys) → P x × All P ys
  unfolding insert_sorted
  All-insert_sorted P x [] all = all
  All-insert_sorted P x (y ∷ ys) all =
      All-insert_step P (before y x) x y ys (insert_sorted x ys) (All-insert_sorted P x ys) all

  -- What holds of the sorted items holds of the items.
  pub All-sort {κ} : (P : A → Type κ) (xs : List A) → All P (sort xs) → All P xs
  unfolding sort
  All-sort P [] _ = tt
  All-sort P (x ∷ xs) all =
      let (px, rest) = All-insert_sorted P x (sort xs) all in (px, All-sort P xs rest)

  pub sort-AllPairs {κ} :
      (R : A → A → Type κ) (symm : (a b : A) → R a b → R b a) (xs : List A)
      → AllPairs R xs
      → AllPairs R (sort xs)
  unfolding sort
  sort-AllPairs R symm [] _ = tt
  sort-AllPairs R symm (x ∷ xs) (h, hs) =
      insert_sorted-AllPairs R symm x (sort xs) (sort-All (R x) xs h) (sort-AllPairs R symm xs hs)

  -- A search for an item that no other item can be taken for finds it wherever the sort puts it.
  find-insert_sorted :
      (p : A → Bool) (x : A) (xs : List A)
      → (p x ≡ true → All (λ y. p y ≡ false) xs)
      → find p (insert_sorted x xs) ≡ (if p x then some x else find p xs)
  unfolding insert_sorted find
  find-insert_sorted p x [] h = refl
  find-insert_sorted p x (y ∷ ys) h = ground (arith, h, find-insert_sorted p x ys (λ e. (h e).1))

  pub find-sort :
      (p : A → Bool) (xs : List A)
      → AllPairs (λ a b. p a ≡ true → p b ≡ false) xs
      → find p (sort xs) ≡ find p xs
  unfolding sort find
  find-sort p [] _ = refl
  find-sort p (x ∷ xs) (h, hs) =
      find-insert_sorted p x (sort xs)
        (λ e. sort-All (λ b. p b ≡ false) xs (All-map (λ b f. f e) xs h))
      ∙ ap (λ rest. if p x then some x else rest) (find-sort p xs hs)

-- Sorted lists of an order in which one of any two different items comes before the other.
module _ {ℓ} {A : Type ℓ} (before : A → A → Bool)
    (asymm : (x y : A) → before x y ≡ true → before y x ≡ false)
    (le_trans : (x y z : A) → before y x ≡ false → before z y ≡ false → before z x ≡ false) where
  -- An item that an item stands in front of stands in front of all that are behind it.
  head_first : (x : A) (ys : List A) → IsSorted before (x ∷ ys) → All (λ y. before y x ≡ false) ys
  head_first x [] _ = tt
  head_first x (y ∷ ys) (h, hs) = (h, All-map (λ z k. le_trans x y z h k) ys (head_first y ys hs))

  IsSorted-tail : (x : A) (ys : List A) → IsSorted before (x ∷ ys) → IsSorted before ys
  IsSorted-tail x [] _ = tt
  IsSorted-tail x (y ∷ ys) (_, hs) = hs

  pub IsSorted-AllPairs :
      (xs : List A) → IsSorted before xs → AllPairs (λ a b. before b a ≡ false) xs
  IsSorted-AllPairs [] _ = tt
  IsSorted-AllPairs (x ∷ xs) h = (head_first x xs h, IsSorted-AllPairs xs (IsSorted-tail x xs h))

  -- Different items that the order separates.
  abbrev pub Separates : A → A → Type 0
  Separates x y = before x y ≡ not (before y x)

  pub insert_sorted_comm :
      (x y : A) (zs : List A)
      → Separates x y
      → insert_sorted before x (insert_sorted before y zs)
        ≡ insert_sorted before y (insert_sorted before x zs)
  unfolding insert_sorted
  insert_sorted_comm x y [] h = ground (arith, h)
  insert_sorted_comm x y (z ∷ zs) h =
      ground (
        arith,
        h,
        insert_sorted_comm x y zs h,
        le_trans y z x,
        le_trans x z y,
        asymm z x,
        asymm z y,
      )
