-- ===== src/World.antt =====
-- What the services take from the machine they run on: the operating system's queries, and a
-- file that holds a component's state. Both are interfaces over a world `σ`.
use lara_nux.Base.{ℕ, Bool, false, Option, some, ◌≡◌, List}
use lara_nux.Text.{Text}
use lara_nux.Effect.Fault.{Error, Result, ok, is_ok}
use lara_nux.Effect.Action.{Action}

-- `os.FileInfo`: the type bits and the permission bits that the daemon reads.
pub record FileInfo : Type 0 where
  pub is_dir : Bool
  pub is_socket : Bool
  pub is_executable : Bool

pub record Os (σ : Type 0) : Type 0 where
  -- `ctx.Err()` once the context is done.
  pub done : σ → Option Error
  -- `time.Now().UTC()` in nanoseconds.
  pub now : σ → ℕ
  -- `os.Stat`, `filepath.Abs`, `filepath.EvalSymlinks`.
  pub stat : Text → σ → Result FileInfo
  pub abs : Text → σ → Result Text
  pub eval_symlinks : Text → σ → Result Text
  -- `rand.Read` of eight bytes.
  pub entropy : Action σ (List ℕ)

-- `loadStateFile` and `saveStateFile` at one path.
pub record StateFile (σ S : Type 0) : Type 0 where
  pub load : Action σ S
  pub save : S → Action σ (Unit {0})

-- What the registries rely on. `content` is the state that the file holds, if it can be decoded.
pub record StateLaws {σ S : Type 0} (os : Os σ) (file : StateFile σ S) : Type 0 where
  pub content : σ → Option S
  pub load-content : (w : σ) (s : S) → (file.load w).0 ≡ ok s → content w ≡ some s
  pub content-load : (w : σ) → content (file.load w).1 ≡ content w
  pub content-save :
      (s : S) (w : σ) → (file.save s w).0 ≡ ok tt → content (file.save s w).1 ≡ some s
  pub content-save_failed :
      (s : S) (w : σ) → is_ok (file.save s w).0 ≡ false → content (file.save s w).1 ≡ content w
  pub content-entropy : (w : σ) → content (os.entropy w).1 ≡ content w

-- An action that only looks at the world.
abbrev pub reads : {σ A : Type 0} → (σ → Result A) → Action σ A
reads f w = (f w, w)
