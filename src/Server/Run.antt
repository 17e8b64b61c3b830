-- ===== src/Server/Run.antt =====
-- `Server::Run` as a whole (server_core/server.cpp).
pub mod Safe
use mod_server.Prelude.{ℕ, Option, List, is_empty, Bytes, if◌then◌else◌}
use mod_server.Prelude.Fault.{Result, ok, ◌>>=◌}
use mod_server.Base.CommandLine.{CommandLine}
use mod_server.PluginApi.Handler.{ProtocolHandler}
use mod_server.Socket.Net.{Net}
use mod_server.Server.PluginCalls.{PluginCalls}
use mod_server.Server.Store.{Server}
use mod_server.Server.Startup.{init_plugins}
use mod_server.Server.Loop.{Select, Outcome, stop, run_rounds}

module _ {W H : Type 0} (net : Net W) (ops : ProtocolHandler H) (calls : PluginCalls H) where
  -- The early return, or the first rounds of the loop.
  unfoldable pub after_init : ℕ → Select W → W × Server H → Result (Outcome W H)
  after_init rounds select (w, srv) =
      let further = run_rounds net ops calls rounds select w srv in
      if is_empty srv.m_sessions then ok (stop w srv) else further

  -- `Run`, over as many rounds as are given; new end points have `raw` in their memory.
  unfoldable pub run :
      Bytes → Option CommandLine → List ℕ → ℕ → Select W → W → Server H → Result (Outcome W H)
  run raw process plugins rounds select w srv = do
    started ← init_plugins net calls raw process plugins w srv
    after_init rounds select started
