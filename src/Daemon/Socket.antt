-- ===== src/Daemon/Socket.antt =====
-- `bindUnixSocket`: daemon/cmd/lara-nuxd/main.go.
use lara_nux.Base.{ℕ, Bool, true, false, ◌++◌, ◌≡◌, arith, if◌then◌else◌}
use lara_nux.Text.{Text, codes, lit, dir_name}
use lara_nux.Effect.Fault.{Result, ok, err, is, is_ok, wrap, plain, not_exist}
use lara_nux.Effect.Action.{
  Action, ◌>>=◌, ◌>>◌, pure, lift, raise, gets, ignore, map_error, on_failure,
}
use lara_nux.Effect.Atomic.{Keeps, keeps_rules}
use lara_nux.World.{FileInfo}

-- The calls of `os`, `os/user` and `net`. `listen` opens the listener of `net.Listen`, and `close`
-- is its `Close`.
pub record SocketCalls (σ : Type 0) : Type 0 where
  pub mkdir_all : Text → Action σ (Unit {0})
  pub lstat : Text → σ → Result FileInfo
  pub remove : Text → Action σ (Unit {0})
  pub listen : Text → Action σ (Unit {0})
  pub close : Action σ (Unit {0})
  pub chmod : Text → Action σ (Unit {0})
  pub lookup_group : Text → σ → Result Text
  pub parse_number : Text → Result ℕ
  pub chown : Text → ℕ → ℕ → Action σ (Unit {0})
  pub euid : ℕ

module _ {σ : Type 0} (calls : SocketCalls σ) where
  -- The stale socket at the path is removed; any other file there is an error.
  unfoldable pub make_room : Text → Result FileInfo → Action σ (Unit {0})
  unfolding is
  make_room path (ok info) =
      if info.is_socket
      then map_error (wrap (lit "remove stale unix socket: ")) (calls.remove path)
      else raise (plain (lit "existing path is not a unix socket: " ++ path))
  make_room path (err e) =
      if is not_exist e then pure tt else raise (wrap (lit "inspect socket path: ") e)

  abbrev wrapped : {A : Type 0} → Text → Result A → Result A
  wrapped context (ok a) = ok a
  wrapped context (err e) = err (wrap context e)

  -- The access to the socket. If one of the calls fails, the listener is closed.
  unfoldable pub set_access : Text → Action σ (Unit {0})
  set_access path = do
    map_error (wrap (lit "set socket permissions: ")) (calls.chmod path)
    group ← gets (calls.lookup_group (codes "lara-nux"))
    gid ← lift (wrapped (lit "lookup socket group: ") group)
    number ← lift (wrapped (lit "parse socket group id: ") (calls.parse_number gid))
    map_error (wrap (lit "set socket ownership: ")) (calls.chown path calls.euid number)

  unfoldable pub bind_unix_socket : Text → Action σ (Unit {0})
  bind_unix_socket path = do
    map_error (wrap (lit "create runtime directory: ")) (calls.mkdir_all (dir_name path))
    info ← gets (calls.lstat path)
    make_room path info
    map_error (wrap (lit "listen on unix socket: ")) (calls.listen path)
    on_failure (ignore calls.close) (set_access path)

-- What is relied on: which calls open and close the listener, whether they fail or not.
pub record SocketLaws {σ : Type 0} (calls : SocketCalls σ) : Type 0 where
  pub is_open : σ → Bool
  pub mkdir_all-kept : (path : Text) (w : σ) → is_open (calls.mkdir_all path w).1 ≡ is_open w
  pub remove-kept : (path : Text) (w : σ) → is_open (calls.remove path w).1 ≡ is_open w
  pub chmod-kept : (path : Text) (w : σ) → is_open (calls.chmod path w).1 ≡ is_open w
  pub chown-kept :
      (path : Text) (uid gid : ℕ) (w : σ) → is_open (calls.chown path uid gid w).1 ≡ is_open w
  pub listen-opens :
      (path : Text) (w : σ)
      → is_open (calls.listen path w).1
        ≡ (if is_ok (calls.listen path w).0 then true else is_open w)
  pub close-closes : (w : σ) → is_open (calls.close w).1 ≡ false

module _ {σ : Type 0} (calls : SocketCalls σ) (laws : SocketLaws calls) where
  open laws use {is_open}

  make_room-kept :
      (path : Text) (info : Result FileInfo) (w : σ)
      → is_open (make_room calls path info w).1 ≡ is_open w
  unfolding make_room map_error
  make_room-kept path info w = ground (arith, laws.remove-kept path w)

  chmod-Keeps : (path : Text) → Keeps is_open (calls.chmod path)
  chmod-Keeps path = record { at = laws.chmod-kept path }

  chown-Keeps : (path : Text) (uid gid : ℕ) → Keeps is_open (calls.chown path uid gid)
  chown-Keeps path uid gid = record { at = laws.chown-kept path uid gid }

  set_access-Keeps : (path : Text) → Keeps is_open (set_access calls path)
  unfolding set_access
  set_access-Keeps path = search (keeps_rules, chmod-Keeps, chown-Keeps) depth 30

  -- If the listener was not open before, then behind bindUnixSocket it is open exactly if the
  -- function succeeded, whatever calls failed.
  pub bind_releases :
      (path : Text) (w : σ)
      → is_open w ≡ false
      → is_open (bind_unix_socket calls path w).1 ≡ is_ok (bind_unix_socket calls path w).0
  unfolding bind_unix_socket ◌>>=◌ map_error on_failure ignore
  bind_releases path w closed =
      let w₁ = (calls.mkdir_all (dir_name path) w).1 in
      let info = calls.lstat path w₁ in
      let w₂ = (make_room calls path info w₁).1 in
      let w₃ = (calls.listen path w₂).1 in
      let w₄ = (set_access calls path w₃).1 in
      ground (
        arith,
        laws.mkdir_all-kept (dir_name path) w,
        make_room-kept path info w₁,
        laws.listen-opens path w₂,
        (set_access-Keeps path).at w₃,
        laws.close-closes w₄,
      )
