-- ===== src/Admin/AdminServer.antt =====
-- The three calls of vortex-admin/src/server.rs, on the objects that the admin server shares with the
-- proxy. `poisoned` says whether a thread has panicked while it held the lock of the payload.
mod Tests
use vortex_proxy.Prelude.{
  ℕ, ◌+◌, ◌%◌, ◌^◌, update, Bool, true, false, List, [], ◌∷◌, Text, bytes, if◌then◌else◌, Option,
}
use vortex_proxy.Outcome.{Outcome, ok, err, result, ◌>>=◌}
use vortex_proxy.Float.{Float}
use vortex_proxy.Net.{SocketAddr, v4}
use vortex_proxy.Core.ArcSwap.{ArcSwap}
use vortex_proxy.Core.Backend
use vortex_proxy.Core.Backend.{SharedBackend}
use vortex_proxy.Core.Routing.{update_backends}
use vortex_proxy.Admin.Watcher.{Shared}

-- A reply with its `success` flag, or an error status.
pub data Reply : Type 0 where
  reply : Bool → Reply
  internal_error : Reply

pub record AdminServer {ℓ} (A : ArcSwap (List SharedBackend)) (F : Type ℓ) : Type ℓ where
  pub shared : Shared A F
  pub active_connections : ℕ
  pub active_wasm_payload : List ℕ
  pub poisoned : Bool

-- `usize as u32`
unfoldable pub get_stats {ℓ} : (A : ArcSwap (List SharedBackend)) {F : Type ℓ} → AdminServer A F → ℕ
get_stats A s = s.active_connections % 2 ^ 32

unfoldable pub update_wasm_plugin {ℓ} :
    (A : ArcSwap (List SharedBackend)) {F : Type ℓ}
    → AdminServer A F
    → List ℕ
    → AdminServer A F × Reply
update_wasm_plugin A s [] = (s, reply false)
update_wasm_plugin A s (b ∷ wasm_binary) =
    if s.poisoned
    then (s, internal_error)
    else (record s { active_wasm_payload = b ∷ wasm_binary }, reply true)

-- `reload_config` does not read the path.
unfoldable pub reload_config {ℓ} :
    (A : ArcSwap (List SharedBackend)) {F : Type ℓ} ⦃f : Float F⦄ (baseline balanced : F)
    → AdminServer A F
    → Text
    → AdminServer A F × Reply
unfolding Backend.new
reload_config A baseline balanced s config_path =
    let fresh = Backend.new baseline balanced 99 (record { ip = v4 127 0 0 1; port = 9099 }) in
    let w = record s.shared {
      heap = update s.shared.heap s.shared.next fresh;
      next = s.shared.next + 1;
    } in
    (
      record s {
        shared = record w {
          routing_table = update_backends A w.routing_table (s.shared.next ∷ []);
        };
      },
      reply true,
    )

-- `AdminServerImpl::new`, on the objects that it shares; whether the lock is poisoned is their matter.
unfoldable pub new {ℓ} :
    {A : ArcSwap (List SharedBackend)} {F : Type ℓ}
    → Shared A F
    → ℕ
    → List ℕ
    → Bool
    → AdminServer A F
new shared active_connections active_wasm_payload poisoned = record {
  shared = shared;
  active_connections = active_connections;
  active_wasm_payload = active_wasm_payload;
  poisoned = poisoned;
}

-- The file system, as far as the socket is concerned: `bind` fails where there is a file of that name.
pub record Sockets : Type 1 where
  pub Files : Type 0
  pub remove_file : Files → Text → Files
  pub bind : Files → Text → Option Files
  -- `serve_with_incoming`, until it ends.
  pub serves : Files → Bool

-- `start_admin_server`: the server that answers the calls, or an error.
unfoldable pub start_admin_server {ℓ} :
    (sockets : Sockets) {A : ArcSwap (List SharedBackend)} {F : Type ℓ}
    → sockets.Files
    → Text
    → Shared A F
    → ℕ
    → List ℕ
    → Bool
    → Outcome (AdminServer A F)
unfolding new
start_admin_server sockets files path shared active_connections active_wasm_payload poisoned =
    result (sockets.bind (sockets.remove_file files path) path) >>= λ uds.
    if sockets.serves uds
    then ok (new shared active_connections active_wasm_payload poisoned)
    else err
