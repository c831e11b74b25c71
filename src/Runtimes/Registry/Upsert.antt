-- ===== src/Runtimes/Registry/Upsert.antt =====
-- What a registration does to the list of runtimes and to the default.
use lara_nux.Base.{
  Bool, true, false, ◌||◌, List, [], ◌∷◌, if◌then◌else◌, is_empty, is_some, some, ◌≡◌, refl, ◌∙◌,
  arith, All, AllPairs, All-map, find, find-sort, sort-All, sort-AllPairs, Bool-cases, inl, inr,
}
use lara_nux.Text.{Text, Unicode, text_eq, text_eq_iff, text_eq_refl}
use lara_nux.Machine.Files.{text_eq_symm}
use lara_nux.Runtimes.Version.{is_supported}
use lara_nux.Runtimes.Registry.{
  PhpRuntimeRecord, PhpRegistryState, upsert, with_runtime, with_version, by_version,
}

abbrev pub IsApart : PhpRuntimeRecord → PhpRuntimeRecord → Type 0
IsApart a b = text_eq a.version b.version ≡ false

upsert-All :
    (P : PhpRuntimeRecord → Type 0) (new : PhpRuntimeRecord) (rs : List PhpRuntimeRecord)
    → P new
    → All P rs
    → All P (upsert new rs)
unfolding upsert
upsert-All P new [] p _ = (p, tt)
upsert-All P new (r ∷ rs) p (q, qs) =
    step (text_eq r.version new.version) (upsert-All P new rs p qs)
  where
    step : (b : Bool) → All P (upsert new rs) → All P (if b then new ∷ rs else r ∷ upsert new rs)
    step true later = (p, qs)
    step false later = (q, later)

upsert-IsDistinct :
    (new : PhpRuntimeRecord) (rs : List PhpRuntimeRecord)
    → AllPairs IsApart rs
    → AllPairs IsApart (upsert new rs)
unfolding upsert
upsert-IsDistinct new [] _ = (tt, tt)
upsert-IsDistinct new (r ∷ rs) (h, hs) = elim (Bool-cases (text_eq r.version new.version)) [
  | inl same ↦ rw same (
    All-map
        (λ b (e : text_eq r.version b.version ≡ false).
          let eq : r.version ≡ new.version = (text_eq_iff r.version new.version).0 same in
          rw (← eq) e)
        rs h,
    hs,
  )
  | inr apart ↦ rw apart (upsert-All (IsApart r) new rs apart h, upsert-IsDistinct new rs hs)
]

find-upsert :
    (version : Text) (new : PhpRuntimeRecord) (rs : List PhpRuntimeRecord)
    → find (with_version version) (upsert new rs)
      ≡ (if text_eq new.version version then some new else find (with_version version) rs)
unfolding find upsert
find-upsert version new [] = refl
find-upsert version new (r ∷ rs) = ground (
  arith,
  find-upsert version new rs,
  text_eq_iff r.version new.version,
  text_eq_iff r.version version,
  text_eq_iff new.version version,
)

-- What the registry's methods keep: no two runtimes of one version, all of them supported, and a
-- default that is registered once there is one.
pub record IsConsistent ⦃u : Unicode⦄ (state : PhpRegistryState) : Type 0 where
  pub distinct : AllPairs IsApart state.runtimes
  pub supported : All (λ r. is_supported r.version ≡ true) state.runtimes
  pub default :
      (is_empty state.default_version
        || is_some (find (with_version state.default_version) state.runtimes))
      ≡ true

one_of_version :
    (version : Text) (rs : List PhpRuntimeRecord)
    → AllPairs IsApart rs
    → AllPairs (λ a b. with_version version a ≡ true → with_version version b ≡ false) rs
one_of_version version [] _ = tt
one_of_version version (r ∷ rs) (h, hs) = (
  All-map {Q = λ b. with_version version r ≡ true → with_version version b ≡ false}
      (λ b (e : IsApart r b) (same : text_eq r.version version ≡ true).
        ground (arith, text_eq_iff r.version version, text_eq_symm b.version version))
      rs h,
  one_of_version version rs hs,
)

-- What each version finds after a registration: the new record, or what it found.
pub find-with_runtime :
    (version : Text) (new : PhpRuntimeRecord) (state : PhpRegistryState)
    → AllPairs IsApart state.runtimes
    → find (with_version version) (with_runtime new state).runtimes ≡ (
        if text_eq new.version version
        then some new
        else find (with_version version) state.runtimes)
unfolding with_runtime
find-with_runtime version new state distinct =
    find-sort by_version (with_version version) (upsert new state.runtimes)
      (one_of_version version _ (upsert-IsDistinct new state.runtimes distinct))
    ∙ find-upsert version new state.runtimes

pub with_runtime-IsConsistent :
    ⦃u : Unicode⦄
    → (new : PhpRuntimeRecord) (state : PhpRegistryState) → is_supported new.version ≡ true
    → IsConsistent state
    → IsConsistent (with_runtime new state)
unfolding with_runtime
with_runtime-IsConsistent new state supported c = record {
  distinct =
      sort-AllPairs by_version IsApart (λ a b e. text_eq_symm b.version a.version ∙ e)
        (upsert new state.runtimes) (upsert-IsDistinct new state.runtimes c.distinct);
  supported =
      sort-All by_version (λ r. is_supported r.version ≡ true) (upsert new state.runtimes)
        (upsert-All (λ r. is_supported r.version ≡ true) new state.runtimes supported c.supported);
  default = ground (
    arith,
    c.default,
    text_eq_refl new.version,
    find-with_runtime new.version new state c.distinct,
    find-with_runtime state.default_version new state c.distinct,
  );
}
