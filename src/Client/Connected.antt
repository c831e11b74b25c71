-- ===== src/Client/Connected.antt =====
-- What the shell's state tells, whatever requests were made: client/wails/app.go.
use lara_nux.Base.{ℕ, false, not, ◌&&◌, ◌≡◌, refl, arith, is_empty}
use lara_nux.Text.{Text}
use lara_nux.Client.Bridge.{Reply}
use lara_nux.Client.Shell.{
  ShellState, new_shell, mark_request, mark_connected, mark_disconnected, request, load_dashboard,
}

-- What the methods of the app do to the world of the client and the shell. The methods and the
-- snapshots that run beside them interleave as they end, and the world changes in between.
pub data Step {σ : Type 0} (clock : σ → ℕ) : σ × ShellState → σ × ShellState → Type 1 where
  requested :
      {T : Type 0} (call : σ → Reply T × σ) (w : σ) (s : ShellState)
      → Step clock (w, s) (request clock call (w, s)).1
  loaded :
      {H S R : Type 0} (health : σ → Reply H × σ) (sites : σ → Reply S × σ)
      (runtimes : σ → Reply R × σ) (w : σ) (s : ShellState)
      → Step clock (w, s) (load_dashboard clock health sites runtimes (w, s)).1
  elapsed : (w w' : σ) (s : ShellState) → Step clock (w, s) (w', s)

pub data Reach {σ : Type 0} (clock : σ → ℕ) (from : σ × ShellState) : σ × ShellState → Type 1 where
  here : Reach clock from from
  next :
      {there then_there : σ × ShellState}
      → Reach clock from there
      → Step clock there then_there
      → Reach clock from then_there

-- A connected shell shows no error, and the socket is the one that the app was started with.
abbrev pub IsShown : Text → ShellState → Type 0
IsShown socket_path s =
    (s.socket_path ≡ socket_path) × ((s.connected && not (is_empty s.last_error)) ≡ false)

module _ {σ : Type 0} (clock : σ → ℕ) (socket_path : Text) where
  Step-IsShown :
      {a b : σ × ShellState} → Step clock a b → IsShown socket_path a.1 → IsShown socket_path b.1
  unfolding request mark_request mark_connected mark_disconnected load_dashboard
  Step-IsShown (requested call w s) h = ground (arith, h)
  Step-IsShown (loaded health sites runtimes w s) h = ground (arith, h)
  Step-IsShown (elapsed w w' s) h = h

  -- After any requests and loads of the dashboard, in any order and with any changes of the
  -- world in between, the shell has the socket path that it was started with, and it is not
  -- connected while it shows an error.
  pub Reach-IsShown :
      {w : σ} {b : σ × ShellState}
      → Reach clock (w, new_shell socket_path) b
      → (b.1.socket_path ≡ socket_path) × ((b.1.connected && not (is_empty b.1.last_error)) ≡ false)
  Reach-IsShown here = (refl, refl)
  Reach-IsShown (next r st) = Step-IsShown st (Reach-IsShown r)
