-- ===== src/Effect/Atomic.antt =====
-- Actions that leave an observation of the world as it was: always (`Keeps`), or when they fail
-- (`Atomic`). One rule for each way to build an action; `search` applies them to a do block.
use lara_nux.Base.{false, ◌≡◌, refl, ◌∙◌, Option, none, some}
use lara_nux.Effect.Fault.{Error, Result, ok, err, is_ok}
use lara_nux.Effect.Action.{Action, ◌>>=◌, continue, check, try, ignore, map_error, pure}

module _ {σ C A : Type 0} (view : σ → C) (m : Action σ A) where
  pub record Keeps : Type 0 where
    pub at : (w : σ) → view (m w).1 ≡ view w

  pub record Atomic : Type 0 where
    pub at : (w : σ) → is_ok (m w).0 ≡ false → view (m w).1 ≡ view w

module _ {σ C : Type 0} {view : σ → C} where
  pub Keeps-reads : {A : Type 0} (f : σ → Result A) → Keeps view (λ w. (f w, w))
  Keeps-reads f = record { at = λ w. refl }

  pub Keeps-check : (done : σ → Option Error) → Keeps view (check done)
  unfolding check
  Keeps-check done = record { at = λ w. by_context (done w) w }
    where
      by_context :
          (o : Option Error) (w : σ)
          → view
              (elim o as (λ _. Result (Unit {0}) × σ) [ none ↦ (ok tt, w) | some e ↦ (err e, w) ]).1
            ≡ view w
      by_context none w = refl
      by_context (some e) w = refl

  pub Keeps-try : {A : Type 0} (m : Action σ A) → Keeps view m → Keeps view (try m)
  unfolding try
  Keeps-try m k = record { at = λ w. k.at w }

  pub Keeps-ignore : {A : Type 0} (m : Action σ A) → Keeps view m → Keeps view (ignore m)
  unfolding ignore
  Keeps-ignore m k = record { at = λ w. k.at w }

  pub Keeps-map_error :
      {A : Type 0} (f : Error → Error) (m : Action σ A) → Keeps view m → Keeps view (map_error f m)
  unfolding map_error
  Keeps-map_error f m k = record { at = λ w. k.at w }

  continue-keeps :
      {A B : Type 0} (f : A → Action σ B)
      → ((a : A) → Keeps view (f a))
      → (r : Result A) (w : σ) → view (continue f r w).1 ≡ view w
  continue-keeps f k (ok a) w = (k a).at w
  continue-keeps f k (err e) w = refl

  pub Keeps-bind :
      {A B : Type 0} (m : Action σ A) (f : A → Action σ B)
      → Keeps view m
      → ((a : A) → Keeps view (f a))
      → Keeps view (m >>= f)
  unfolding ◌>>=◌
  Keeps-bind m f km kf = record { at = λ w. continue-keeps f kf (m w).0 (m w).1 ∙ km.at w }

  pub Atomic-keeps : {A : Type 0} (m : Action σ A) → Keeps view m → Atomic view m
  Atomic-keeps m k = record { at = λ w _. k.at w }

  continue-atomic :
      {A B : Type 0} (f : A → Action σ B)
      → ((a : A) → Atomic view (f a))
      → (r : Result A) (w : σ) → is_ok (continue f r w).0 ≡ false
      → view (continue f r w).1 ≡ view w
  continue-atomic f k (ok a) w h = (k a).at w h
  continue-atomic f k (err e) w h = refl

  -- A failure behind an action that changes nothing.
  pub Atomic-bind :
      {A B : Type 0} (m : Action σ A) (f : A → Action σ B)
      → Keeps view m
      → ((a : A) → Atomic view (f a))
      → Atomic view (m >>= f)
  unfolding ◌>>=◌
  Atomic-bind m f km kf = record { at = λ w h. continue-atomic f kf (m w).0 (m w).1 h ∙ km.at w }

  -- The last action that can fail.
  pub Atomic-last :
      {A B : Type 0} (m : Action σ A) (b : B) → Atomic view m → Atomic view (m >>= λ _. pure b)
  unfolding ◌>>=◌
  Atomic-last {A} {B} m b k = record { at = λ w h. by_result (m w).0 (m w).1 (k.at w) h }
    where
      by_result :
          {w : σ} (r : Result A) (w' : σ)
          → (is_ok r ≡ false → view w' ≡ view w)
          → is_ok (continue {B = B} (λ _. pure b) r w').0 ≡ false
          → view (continue {B = B} (λ _. pure b) r w').1 ≡ view w
      by_result (ok a) w' k h = cc
      by_result (err e) w' k h = k refl

pub ruleset keeps_rules =
    (Keeps-reads, Keeps-check, Keeps-try, Keeps-ignore, Keeps-map_error, Keeps-bind)

pub ruleset atomic_rules = (keeps_rules, Atomic-last, Atomic-bind, Atomic-keeps)
