-- ===== src/Effect/Action.antt =====
-- Actions on a world `σ`: what a method with effects returns, and the world behind it.
use lara_nux.Base.{Bool, true, false, Option, none, some}
use lara_nux.Effect.Fault.{Error, Result, ok, err}

abbrev pub Action : Type 0 → Type 0 → Type 0
Action σ A = σ → Result A × σ

-- A value and an error that are returned together, and the world behind the method.
abbrev pub Outcome : Type 0 → Type 0 → Type 0
Outcome σ A = σ → (A × Option Error) × σ

module _ {σ : Type 0} where
  abbrev pub pure : {A : Type 0} → A → Action σ A
  pure a w = (ok a, w)

  -- `return err`
  abbrev pub raise : {A : Type 0} → Error → Action σ A
  raise e w = (err e, w)

  abbrev pub lift : {A : Type 0} → Result A → Action σ A
  lift r w = (r, w)

  -- A value read off the world.
  abbrev pub gets : {A : Type 0} → (σ → A) → Action σ A
  gets f w = (ok (f w), w)

  abbrev pub continue : {A B : Type 0} → (A → Action σ B) → Result A → Action σ B
  continue f (ok a) w = f a w
  continue f (err e) w = (err e, w)

  infixl 5 ◌>>=◌ ◌>>◌
  unfoldable pub ◌>>=◌ : {A B : Type 0} → Action σ A → (A → Action σ B) → Action σ B
  ◌>>=◌ m f w = let (r, w') = m w in continue f r w'

  abbrev pub ◌>>◌ : {A B : Type 0} → Action σ A → Action σ B → Action σ B
  m >> k = m >>= λ _. k

  -- `x, err := m`, with the error as a value.
  unfoldable pub try : {A : Type 0} → Action σ A → Action σ (Result A)
  try m w = let (r, w') = m w in (ok r, w')

  -- `_ = m`: the result is dropped.
  unfoldable pub ignore : {A : Type 0} → Action σ A → Action σ (Unit {0})
  ignore m w = let (r, w') = m w in (ok tt, w')

  -- `err` with a context put in front by the caller.
  unfoldable pub map_error : {A : Type 0} → (Error → Error) → Action σ A → Action σ A
  map_error f m w = let (r, w') = m w in (elim r [ ok a ↦ ok a | err e ↦ err (f e) ], w')

  failed_with : {A : Type 0} → Action σ (Unit {0}) → Result A → σ → Result A × σ
  failed_with undo (ok a) w = (ok a, w)
  failed_with undo (err e) w = (err e, (undo w).1)

  -- `if err != nil { undo; return err }`
  unfoldable pub on_failure : {A : Type 0} → Action σ (Unit {0}) → Action σ A → Action σ A
  unfolding failed_with
  on_failure undo m w = let (r, w') = m w in failed_with undo r w'

  unfoldable pub when : Bool → Action σ (Unit {0}) → Action σ (Unit {0})
  when true m = m
  when false m = pure tt

  -- `select { case <-ctx.Done(): return ctx.Err(); default: }`
  unfoldable pub check : (σ → Option Error) → Action σ (Unit {0})
  check done w = elim (done w) [ none ↦ (ok tt, w) | some e ↦ (err e, w) ]
