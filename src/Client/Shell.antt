-- ===== src/Client/Shell.antt =====
-- The state of the client's shell and the requests that change it: client/wails/app.go.
use lara_nux.Base.{ℕ, Bool, true, false, []}
use lara_nux.Text.{Text}
use lara_nux.Client.Bridge.{ClientError, Reply, received, failed, error_text}

pub record ShellState : Type 0 where
  pub socket_path : Text
  pub connected : Bool
  pub last_error : Text
  pub last_synced_at : ℕ

-- `NewApp`
abbrev pub new_shell : Text → ShellState
new_shell socket_path = record {
  socket_path = socket_path;
  connected = false;
  last_error = [];
  last_synced_at = 0;
}

unfoldable pub mark_connected : ℕ → ShellState → ShellState
mark_connected now s = record s { connected = true; last_error = []; last_synced_at = now }

unfoldable pub mark_disconnected : ClientError → ℕ → ShellState → ShellState
unfolding error_text
mark_disconnected e now s = record s {
  connected = false;
  last_error = error_text e;
  last_synced_at = now;
}

-- `markRequest`
unfoldable pub mark_request : {T : Type 0} → Reply T → ℕ → ShellState → ShellState
unfolding mark_connected mark_disconnected
mark_request (received a) now s = mark_connected now s
mark_request (failed e) now s = mark_disconnected e now s

-- `bridge.ShellStatus`
pub record ShellStatus : Type 0 where
  pub socket_path : Text
  pub connected : Bool
  pub last_synced_at : ℕ
  pub last_error : Text

pub record DashboardSnapshot (H S R : Type 0) : Type 0 where
  pub health : H
  pub sites : S
  pub runtimes : R
  pub shell : ShellStatus

-- The requests of the app, on the world of the client and the shell's state.
module _ {σ : Type 0} (clock : σ → ℕ) where
  -- A method of the app that passes on one request.
  unfoldable pub request :
      {T : Type 0} → (σ → Reply T × σ) → σ × ShellState → Reply T × (σ × ShellState)
  unfolding mark_request
  request call (w, s) = let (reply, w') = call w in (reply, (w', mark_request reply (clock w') s))

  snapshot :
      {H S R : Type 0}
      → H
      → S
      → R
      → σ × ShellState
      → Reply (DashboardSnapshot H S R) × (σ × ShellState)
  unfolding mark_connected
  snapshot health sites runtimes (w, s) =
      let s' = mark_connected (clock w) s in
      (
        received (record {
          health = health;
          sites = sites;
          runtimes = runtimes;
          shell = record {
            socket_path = s'.socket_path;
            connected = true;
            last_synced_at = s'.last_synced_at;
            last_error = [];
          };
        }),
        (w, s'),
      )

  -- What follows a request of `LoadDashboard`: its error ends the method.
  followed :
      {T A : Type 0}
      → Reply T × σ
      → ShellState
      → (T → σ × ShellState → Reply A × (σ × ShellState))
      → Reply A × (σ × ShellState)
  unfolding mark_disconnected
  followed (received a, w) s next = next a (w, s)
  followed (failed e, w) s next = (failed e, (w, mark_disconnected e (clock w) s))

  -- `LoadDashboard`
  unfoldable pub load_dashboard :
      {H S R : Type 0}
      → (σ → Reply H × σ)
      → (σ → Reply S × σ)
      → (σ → Reply R × σ)
      → σ × ShellState
      → Reply (DashboardSnapshot H S R) × (σ × ShellState)
  unfolding followed snapshot
  load_dashboard health_call sites_call runtimes_call (w, s) =
      followed (health_call w) s (λ health (w₁, s₁). followed (sites_call w₁) s₁ (λ sites (w₂, s₂).
        followed (runtimes_call w₂) s₂ (λ runtimes. snapshot health sites runtimes)))
