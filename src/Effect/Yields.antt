-- ===== src/Effect/Yields.antt =====
-- What an action that succeeds returns and leaves to be observed, for an observation before it.
use lara_nux.Base.{◌≡◌, refl, sym, subst}
use lara_nux.Effect.Fault.{Error, Result, ok, err}
use lara_nux.Effect.Action.{Action, continue, ◌>>=◌, lift, gets, pure, map_error, on_failure}
use lara_nux.Effect.Atomic.{Keeps}

module _ {σ C : Type 0} (view : σ → C) (before : C) where
  pub record Yields {A : Type 0} (m : Action σ A) (Q : A → C → Type 0) : Type 0 where
    pub at : (w : σ) (a : A) → view w ≡ before → (m w).0 ≡ ok a → Q a (view (m w).1)

  -- The observation is kept, and the result has a property.
  abbrev pub Returns : {A : Type 0} → Action σ A → (A → Type 0) → Type 0
  Returns m R = Yields m (λ a c. (c ≡ before) × R a)

ok_inj : {A : Type 0} (a b : A) → ok a ≡ ok b → a ≡ b
ok_inj a b h = cc

module _ {σ C : Type 0} {view : σ → C} {before : C} where
  pub Yields-bind :
      {A B : Type 0} (m : Action σ A) (f : A → Action σ B) (R : A → Type 0) (Q : B → C → Type 0)
      → Returns view before m R
      → ((a : A) → R a → Yields view before (f a) Q)
      → Yields view before (m >>= f) Q
  unfolding ◌>>=◌
  Yields-bind {A} {B} m f R Q y k = record {
    at = λ w b e h. by_result (m w).0 (m w).1 (λ a r. y.at w a e r) b h;
  }
    where
      by_result :
          (r : Result A) (w' : σ)
          → ((a : A) → r ≡ ok a → (view w' ≡ before) × R a)
          → (b : B) → (continue {B = B} f r w').0 ≡ ok b
          → Q b (view (continue {B = B} f r w').1)
      by_result (ok a) w' p b h = let (e, ra) = p a refl in (k a ra).at w' b e h
      by_result (err e) w' p b h = cc

  -- Behind an action that changes the observation, the next one starts from what it left.
  pub Yields-chain :
      {A B : Type 0} (m : Action σ A) (f : A → Action σ B) (R : A → C → Type 0) (Q : B → C → Type 0)
      → Yields view before m R
      → ((a : A) (c : C) → R a c → Yields view c (f a) Q)
      → Yields view before (m >>= f) Q
  unfolding ◌>>=◌
  Yields-chain {A} {B} m f R Q y k = record {
    at = λ w b e h. by_result (m w).0 (m w).1 (λ a r. y.at w a e r) b h;
  }
    where
      by_result :
          (r : Result A) (w' : σ)
          → ((a : A) → r ≡ ok a → R a (view w'))
          → (b : B) → (continue {B = B} f r w').0 ≡ ok b
          → Q b (view (continue {B = B} f r w').1)
      by_result (ok a) w' p b h = (k a (view w') (p a refl)).at w' b refl h
      by_result (err e) w' p b h = cc

  pub Yields-map :
      {A : Type 0} (m : Action σ A) (R Q : A → C → Type 0)
      → ((a : A) (c : C) → R a c → Q a c)
      → Yields view before m R
      → Yields view before m Q
  Yields-map m R Q f y = record { at = λ w a e h. f a _ (y.at w a e h) }

  pub Keeps-Returns :
      {A : Type 0} (m : Action σ A) → Keeps view m → Returns view before m (λ _. Unit)
  Keeps-Returns m k = record { at = λ w a e h. (cc (k.at w, e), tt) }

  pub Returns-lift : {A : Type 0} (r : Result A) → Returns view before (lift r) (λ a. r ≡ ok a)
  Returns-lift r = record { at = λ w a e h. (e, h) }

  pub Returns-pure : {A : Type 0} (a : A) (R : A → Type 0) → R a → Returns view before (pure a) R
  Returns-pure a R r = record { at = λ w a' e h. (e, subst R (ok_inj a a' h) r) }

  pub Yields-gets :
      {A B : Type 0} (g : σ → A) (f : A → Action σ B) (Q : B → C → Type 0)
      → ((a : A) → Yields view before (f a) Q)
      → Yields view before (gets g >>= f) Q
  unfolding ◌>>=◌
  Yields-gets g f Q k = record { at = λ w b e h. (k (g w)).at w b e h }

  pub Yields-guarded :
      {A : Type 0} (undo : Action σ (Unit {0})) (m : Action σ A) (Q : A → C → Type 0)
      → Yields view before m Q
      → Yields view before (on_failure undo m) Q
  unfolding on_failure
  Yields-guarded {A} undo m Q y = record {
    at = λ w a e h. by_result (m w).0 (m w).1 (λ a r. y.at w a e r) a h;
  }
    where
      by_result :
          (r : Result A) (w' : σ)
          → ((a : A) → r ≡ ok a → Q a (view w'))
          → (a : A) → (on_failure undo (λ _. (r, w')) w').0 ≡ ok a
          → Q a (view (on_failure undo (λ _. (r, w')) w').1)
      by_result (ok a') w' p a h = p a h
      by_result (err e) w' p a h = cc

  pub Yields-map_error :
      {A : Type 0} (f : Error → Error) (m : Action σ A) (Q : A → C → Type 0)
      → Yields view before m Q
      → Yields view before (map_error f m) Q
  unfolding map_error
  Yields-map_error {A} f m Q y = record {
    at = λ w a e h. by_result (m w).0 (m w).1 (λ a r. y.at w a e r) a h;
  }
    where
      by_result :
          (r : Result A) (w' : σ)
          → ((a : A) → r ≡ ok a → Q a (view w'))
          → (a : A) → (map_error f (λ _. (r, w')) w').0 ≡ ok a
          → Q a (view w')
      by_result (ok a') w' p a h = p a h
      by_result (err e) w' p a h = cc

  -- A last step that reads a clock behind it.
  pub Yields-clocked :
      {A B T : Type 0} (m : Action σ A) (clock : σ → T) (g : A → T → B) (Q : C → Type 0)
      → Yields view before m (λ _ c. Q c)
      → Yields view before (m >>= λ a. gets clock >>= λ t. pure (g a t)) (λ _ c. Q c)
  unfolding ◌>>=◌
  Yields-clocked m clock g Q y =
      Yields-chain m _ (λ _ c. Q c) (λ _ c. Q c) y
        (λ a c q. record { at = λ w b e h. subst Q (sym e) q })
