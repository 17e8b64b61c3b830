-- ===== src/Tests/Faults.antt =====
-- The server at a concrete system: its start, its sets for `select`, and what brings it down.
use mod_server.Prelude.{
  ℕ, ◌<◌, ◌≡◌, ◌⊎◌, ◌^◌, inl, refl, true, false, not, some, [], ◌∷◌, arith, ltb→lt, replicate,
  Bytes,
}
use mod_server.Prelude.Int.{ℤ, pos}
use mod_server.Prelude.Fault.{ok, fault, bad_write, null_pointer}
use mod_server.Http.Handler
use mod_server.Http.Handler.{HttpHandler, new_handler}
use mod_server.Server.FdSet.{FdSet, fd_zero}
use mod_server.Server.Session.{Session, session_has_data}
use mod_server.Server.Store.{Server}
use mod_server.Server.Startup.{init_plugins}
use mod_server.Server.Loop.{fill_ready_read, fill_ready_write, on_read, send_loop, round}
use mod_server.Server.Valid.{Member, IsValid}
use mod_server.Server.Valid.Round.{IsValid-carry}
use mod_server.Server.Valid.Starts.{init_plugins-IsValid}
use mod_server.Server.Valid.Watched.{fill_ready-splits}
use mod_server.Server.Valid.Faults.{round-after_failed_accept, send_loop-acceptor}
use mod_server.Socket.Net.{Use, opened, listening}
use mod_server.Tests.System.{
  InUse, quiet, quiet-laws, quiet-supply, quiet_select, quiet_accept, ops, laws, plugins, listener,
  running, running-IsValid, plugins-IsCallable, local_only, local_some, local_short,
}

abbrev end_point_memory : Bytes
end_point_memory = replicate 20 7

small_sockets : (w n : ℕ) → (quiet_accept w).0 ≡ pos n → n < 1024
small_sockets w n e = ground (arith, e)

init_plugins-IsValid_example :
    (w' : ℕ) × (srv' : Server HttpHandler) × (init_plugins quiet plugins end_point_memory
        (some local_only)
        (0 ∷ 1 ∷ [])
        5
        running
      ≡ ok (w', srv'))
    × IsValid quiet-laws laws w' srv'
init_plugins-IsValid_example =
    init_plugins-IsValid quiet-laws laws plugins end_point_memory local_only local_some local_short
      plugins-IsCallable small_sockets (0 ∷ 1 ∷ []) 5 running running-IsValid

fill_ready-splits_example :
    (rs ws : FdSet) × (fill_ready_read quiet ops plugins running fd_zero ≡ ok rs)
    × (fill_ready_write quiet ops plugins running fd_zero ≡ ok ws)
    × ((p k : ℕ) (s : Session HttpHandler)
        → Member p running.m_sessions
        → running.heap p ≡ some s
        → s.m_sock.m_socket ≡ pos k
        → (session_has_data quiet ops s ≡ ok (ws k)) × (rs k ≡ not (ws k)))
    × ((k : ℕ)
        → (rs k ≡ true) ⊎ (ws k ≡ true)
        → (p : ℕ) × (s : Session HttpHandler) × Member p running.m_sessions
          × (running.heap p ≡ some s)
          × (s.m_sock.m_socket ≡ pos k)
          × (k < running.m_max_fd))
fill_ready-splits_example = fill_ready-splits quiet-laws laws plugins 5 running running-IsValid

used_later : (u : Use) → InUse u 5 → InUse u 1024
used_later (opened k) h = omega (arith, h)
used_later (listening k) h = (omega (arith, h.0), h.1)

-- The same server, when all descriptors are in use.
full-IsValid : IsValid quiet-laws laws 1024 running
full-IsValid = IsValid-carry quiet-laws laws 5 1024 running running-IsValid used_later

new_handler_idle : Handler.has_data_to_send new_handler ≡ false
unfolding Handler.has_data_to_send
new_handler_idle = refl

round-after_failed_accept_example :
    (err : ℤ) × (w' : ℕ) × (srv' : Server HttpHandler) × (on_read quiet ops plugins 0 1024 running
      ≡ ok (pos 1, err, w', srv'))
    × ((later : ℕ) → round quiet ops plugins quiet_select later srv' ≡ fault bad_write)
round-after_failed_accept_example =
    round-after_failed_accept quiet-laws laws quiet-supply plugins quiet_select 1024 running 0 0
      listener (plugins-IsCallable 0) full-IsValid (ltb→lt 5 (2 ^ 32) refl) refl refl refl
      new_handler_idle

listener_is_written : send_loop quiet ops plugins (0 ∷ 1 ∷ []) 5 running ≡ fault null_pointer
listener_is_written =
    send_loop-acceptor quiet-laws laws quiet-supply plugins 5 running 0 0 (1 ∷ []) listener
      running-IsValid (inl refl) refl refl refl
