-- ===== src/Tests/Server.antt =====
-- The server at a concrete system.
use mod_server.Prelude.{
  true, ℕ, ◌<◌, ◌≡◌, ◌≢◌, inl, inr, refl, sym, ap, ◌∙◌, false, ◌==◌, ◌-◌, some, [], ◌∷◌, ◌++◌,
  arith, length, replicate,
}
use mod_server.Prelude.Int.{ℤ, pos, negsuc}
use mod_server.Prelude.Fault.{ok, fault, bad_write, failed_assert, Returns}
use mod_server.PluginApi.DataChunk.{m_buf_size}
use mod_server.Http.Handler.{HttpHandler, new_handler}
use mod_server.Socket.Net.{Net}
use mod_server.Server.FdSet.{FdSet, fd_zero}
use mod_server.Server.Session.{Session, connection, acceptor, connection_on_read}
use mod_server.Server.Store.{Server}
use mod_server.Server.Loop.{
  Outcome, fill_ready_read, fill_ready_write, acceptor_on_read, read_data, send_data, round,
  run_rounds,
}
use mod_server.Server.Valid.{Member}
use mod_server.Server.Valid.Ends.{Looped}
use mod_server.Server.Valid.Collect.{Unready}
use mod_server.Server.Valid.Reads.{read_data-Answered}
use mod_server.Server.Valid.Sends.{send_data-Served}
use mod_server.Server.Valid.Writes.{Written}
use mod_server.Server.Valid.Round.{StaysValid}
use mod_server.Server.Valid.Answers.{Answered}
use mod_server.Server.Valid.Attends.{Attends, round-Attends}
use mod_server.Server.Valid.Safety.{run_rounds-StaysValid}
use mod_server.Base.CommandLine.{CommandLine, lookup, switch_value}
use mod_server.Server.Startup.{server_ip, init_plugins, init_plugins-Returns, init_plugins-assert}
use mod_server.Server.Store.{new_server}
use mod_server.Server.IpEndPoint.{ip_size}
use mod_server.Server.Failures.{acceptor_on_read_failed, connection_on_read_full}
use mod_server.Tests.System.{
  quiet, quiet-laws, quiet-supply, quiet_select, named, select_supplies, choosy_select,
  choosy_narrows, choosy_supplies, ops, laws, plugins, plugins-ready, never_fills, listener, talker,
  two, running, two_cases, running-IsValid, plugins-IsCallable, local_only, local_some, local_short,
}

run_rounds-StaysValid_example :
    (o : Outcome ℕ HttpHandler) × (run_rounds quiet ops plugins 7 quiet_select 5 running ≡ ok o)
    × StaysValid quiet-laws laws o
run_rounds-StaysValid_example =
    run_rounds-StaysValid quiet-laws laws quiet-supply plugins quiet_select plugins-ready
      never_fills (λ n rs ws es w k h. h) (λ n rs ws es w k h. h) select_supplies 7 5 running
      running-IsValid

round-Attends_example :
    (rs ws : FdSet) × (o : Outcome ℕ HttpHandler) × (fill_ready_read quiet ops plugins running
        fd_zero
      ≡ ok rs)
    × (fill_ready_write quiet ops plugins running fd_zero ≡ ok ws)
    × (round quiet ops plugins choosy_select 5 running ≡ ok o)
    × Attends quiet-laws laws quiet-supply plugins choosy_select plugins-ready never_fills
        (λ n rs ws es w k h. h)
        choosy_narrows
        choosy_supplies
        (choosy_select 5 rs ws fd_zero 5).0
        running
        o
round-Attends_example =
    round-Attends quiet-laws laws quiet-supply plugins choosy_select plugins-ready never_fills
      (λ n rs ws es w k h. h) choosy_narrows choosy_supplies 5 running running-IsValid

read_data-Answered_example :
    (l : Looped quiet-laws laws quiet-supply plugins
      (Unready quiet-laws laws (named 5) running)
      running
      (read_data quiet ops plugins (named 5) 5 running))
    × ((p fd : ℕ) (s : Session HttpHandler)
        → Member p running.m_sessions
        → running.heap p ≡ some s
        → s.m_sock.m_socket ≡ pos fd
        → named 5 fd ≡ true
        → Answered quiet-laws laws quiet-supply plugins s.kind p s running l.server)
read_data-Answered_example =
    read_data-Answered quiet-laws laws quiet-supply plugins plugins-ready never_fills (named 5) 5
      running running-IsValid (select_supplies 5 fd_zero fd_zero fd_zero 5)

abbrev only_four : FdSet
only_four k = k == 4

no_acceptor_on_four :
    (p fd plugin : ℕ) (s : Session HttpHandler)
    → Member p running.m_sessions
    → running.heap p ≡ some s
    → s.kind ≡ acceptor plugin
    → s.m_sock.m_socket ≡ pos fd
    → only_four fd ≡ false
no_acceptor_on_four p fd plugin s m e k h = elim (two_cases p s m e) [
  | inl (z, is_s) ↦
      let sock : s.m_sock.m_socket ≡ pos 3 =
        ap (λ (x : Session HttpHandler). x.m_sock.m_socket) is_s in
      let three : pos fd ≡ pos 3 = sym h ∙ sock in ground (arith, three)
  | inr (o, is_s) ↦ absurd (cc (k, ap (λ (x : Session HttpHandler). x.kind) is_s))
]

send_data-Served_example :
    (l : Looped quiet-laws laws quiet-supply plugins
      (Unready quiet-laws laws only_four running)
      running
      (send_data quiet ops plugins only_four 5 running))
    × ((p fd : ℕ) (s : Session HttpHandler)
        → Member p running.m_sessions
        → running.heap p ≡ some s
        → s.m_sock.m_socket ≡ pos fd
        → only_four fd ≡ true
        → Written quiet-laws laws quiet-supply plugins p s l.server)
send_data-Served_example =
    send_data-Served quiet-laws laws quiet-supply plugins only_four 5 running running-IsValid
      no_acceptor_on_four

listener_after_failed_accept :
    (err : ℤ) × (w' : ℕ) × (srv' : Server HttpHandler) × (t : Session HttpHandler)
    × (acceptor_on_read quiet ops plugins 0 listener 1024 running ≡ ok (pos 1, err, w', srv'))
    × (srv'.m_max_fd ≡ 0)
    × (srv'.m_sessions ≡ running.m_sessions ++ 2 ∷ [])
    × (srv'.heap 2 ≡ some t)
    × (t.m_sock.m_socket ≡ negsuc 0)
    × (t.kind ≡ connection)
    × (t.m_proto_handler ≡ some new_handler)
    × ((p : ℕ) → p ≢ 2 → srv'.heap p ≡ two p)
listener_after_failed_accept =
    acceptor_on_read_failed quiet ops plugins 0 listener 1024 running (plugins-IsCallable 0) refl
      (omega arith)

-- A peer that always has more to send.
abbrev flooding : Net ℕ
flooding = record quiet { sys_recv = λ fd size w. ((pos size, replicate size 7), w) }

connection_on_read_full_example : connection_on_read flooding ops talker 5 ≡ fault bad_write
connection_on_read_full_example =
    connection_on_read_full flooding ops talker 5 new_handler (replicate m_buf_size 7) refl
      (laws.allocates new_handler) refl refl

local_starts : Returns (
    init_plugins {H = HttpHandler} quiet plugins
      (replicate 20 7)
      (some local_only)
      (0 ∷ 1 ∷ [])
      5
      new_server)
local_starts =
    init_plugins-Returns quiet plugins (replicate 20 7) local_only plugins-IsCallable (0 ∷ 1 ∷ []) 5
      new_server local_some local_short

abbrev no_switches : CommandLine
no_switches = record { m_switches = [] }

unfit : ¬ ((0 < length (server_ip no_switches)) × (length (server_ip no_switches) < ip_size - 1))
unfolding switch_value lookup
unfit (some_text, short) = absurd (omega arith)

init_plugins-assert_example :
    init_plugins {H = HttpHandler} quiet plugins
      (replicate 20 7)
      (some no_switches)
      (0 ∷ [])
      5
      new_server
    ≡ fault failed_assert
init_plugins-assert_example =
    init_plugins-assert quiet plugins (replicate 20 7) no_switches 0 [] 5 new_server
      (plugins-IsCallable 0) unfit
