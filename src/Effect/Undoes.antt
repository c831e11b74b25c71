-- ===== src/Effect/Undoes.antt =====
-- Actions with an undo: a failure puts an observation of the world back to what it was before.
use lara_nux.Base.{true, false, ◌≡◌, refl, arith}
use lara_nux.Effect.Fault.{Result, ok, err, is_ok}
use lara_nux.Effect.Action.{Action, continue, ◌>>=◌, gets, pure, on_failure}
use lara_nux.Effect.Atomic.{Keeps, Atomic}

-- An action that turns a failure into another observation, and keeps the one it found otherwise.
module _ {σ C : Type 0} (view : σ → C) (full before : C) where
  pub record Undoes {A : Type 0} (m : Action σ A) : Type 0 where
    pub failed : (w : σ) → view w ≡ full → is_ok (m w).0 ≡ false → view (m w).1 ≡ before
    pub done : (w : σ) → view w ≡ full → is_ok (m w).0 ≡ true → view (m w).1 ≡ full

  pub record FailsBack {A : Type 0} (m : Action σ A) : Type 0 where
    pub back : (w : σ) → view w ≡ full → is_ok (m w).0 ≡ false → view (m w).1 ≡ before

module _ {σ C : Type 0} {view : σ → C} {full before : C} where
  pub Undoes-guarded :
      {A : Type 0} (m : Action σ A) (u : Action σ (Unit {0}))
      → Keeps view m
      → ((w : σ) → view w ≡ full → view (u w).1 ≡ before)
      → Undoes view full before (on_failure u m)
  unfolding on_failure
  Undoes-guarded m u k undone = record {
    failed = λ w e h. ground (arith, k.at w, undone (m w).1);
    done = λ w e h. ground (arith, k.at w);
  }

  pub FailsBack-guarded :
      {A : Type 0} (m : Action σ A) (u : Action σ (Unit {0}))
      → Atomic view m
      → ((w : σ) → view w ≡ full → view (u w).1 ≡ before)
      → FailsBack view full before (on_failure u m)
  unfolding on_failure
  FailsBack-guarded m u k undone = record { back = λ w e h. ground (arith, k.at w, undone (m w).1) }

  pub FailsBack-pure : {A : Type 0} (f : σ → A) → FailsBack view full before (λ w. (ok (f w), w))
  FailsBack-pure f = record { back = λ w e h. cc }

  pub FailsBack-gets :
      {A B : Type 0} (g : σ → A) (f : A → Action σ B)
      → ((a : A) → FailsBack view full before (f a))
      → FailsBack view full before (gets g >>= f)
  unfolding ◌>>=◌
  FailsBack-gets g f k = record { back = λ w e h. (k (g w)).back w e h }

  pub FailsBack-bind :
      {A B : Type 0} (m : Action σ A) (f : A → Action σ B)
      → Undoes view full before m
      → ((a : A) → FailsBack view full before (f a))
      → FailsBack view full before (m >>= f)
  unfolding ◌>>=◌
  FailsBack-bind {A} {B} m f u k = record {
    back = λ w e h. by_result (m w).0 (m w).1 (u.failed w e) (u.done w e) h;
  }
    where
      by_result :
          (r : Result A) (w' : σ)
          → (is_ok r ≡ false → view w' ≡ before)
          → (is_ok r ≡ true → view w' ≡ full)
          → is_ok (continue {B = B} f r w').0 ≡ false
          → view (continue {B = B} f r w').1 ≡ before
      by_result (ok a) w' b d h = (k a).back w' (d refl) h
      by_result (err e) w' b d h = b refl

  -- What follows the last action that can fail.
  pub FailsBack-last :
      {A B : Type 0} (m : Action σ A) (f : A → Action σ B)
      → FailsBack view full before m
      → ((a : A) (w : σ) → is_ok (f a w).0 ≡ true)
      → FailsBack view full before (m >>= f)
  unfolding ◌>>=◌
  FailsBack-last {A} {B} m f u k = record {
    back = λ w e h. by_result (m w).0 (m w).1 (u.back w e) h;
  }
    where
      by_result :
          (r : Result A) (w' : σ)
          → (is_ok r ≡ false → view w' ≡ before)
          → is_ok (continue {B = B} f r w').0 ≡ false
          → view (continue {B = B} f r w').1 ≡ before
      by_result (ok a) w' b h = ground (arith, k a w')
      by_result (err e) w' b h = b refl

  -- A last step that reads a clock behind it.
  pub FailsBack-clocked :
      {A B T : Type 0} (m : Action σ A) (clock : σ → T) (g : A → T → B)
      → FailsBack view full before m
      → FailsBack view full before (m >>= λ a. gets clock >>= λ t. pure (g a t))
  unfolding ◌>>=◌
  FailsBack-clocked m clock g u =
      FailsBack-last m (λ a. gets clock >>= λ t. pure (g a t)) u (λ a w. refl)
