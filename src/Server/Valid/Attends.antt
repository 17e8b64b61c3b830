-- ===== src/Server/Valid/Attends.antt =====
-- A whole round of the loop of `Run`, as each session sees it (server_core/server.cpp).
use mod_server.Prelude.{ℕ, ◌≡◌, ◌≢◌, inl, inr, refl, ◌∙◌, Bool, true, false, List, Bool-cases}
use mod_server.Prelude.Int.{ℤ, pos, negsuc}
use mod_server.Prelude.Fault.{ok}
use mod_server.PluginApi.DataChunk.{m_buf_size}
use mod_server.Server.PluginCalls.{PluginCalls, IsCallable}
use mod_server.PluginApi.Handler.{ProtocolHandler, HandlerLaws}
use mod_server.Socket.Net.{Net, NetLaws, Use}
use mod_server.Server.FdSet.{FdSet, fd_zero}
use mod_server.Server.Session.{connection}
use mod_server.Server.Store.{Server}
use mod_server.Server.Loop.{
  Selected, Select, Outcome, again, stop, fill_ready_read, fill_ready_write, fill_error,
  close_outdated_connections, after_select, round,
}
use mod_server.Server.Valid.{Member, Distinct, IsValid, Supply}
use mod_server.Server.Valid.Choice.{res_cases}
use mod_server.Server.Valid.Round.{has_data_answers, IsValid-carry}
use mod_server.Server.Valid.Service.{Attended, read_and_send-Attended}
use mod_server.Server.Valid.Touch.{Grows}
use mod_server.Server.Valid.Watched.{fill_ready-splits}

unset_of : {b : Bool} → ¬ (b ≡ true) → b ≡ false
unset_of {b} h = elim (Bool-cases b) [ inl is_set ↦ absurd (h is_set) | inr unset ↦ unset ]

module _ {W H : Type 0} {net : Net W} {ops : ProtocolHandler H} (nl : NetLaws net)
    (hl : HandlerLaws ops) (sup : Supply nl) (calls : PluginCalls H) (select : Select W)
    (handlers : (plugin : ℕ) → (c : IsCallable calls plugin) × hl.IsReady c.handler)
    (never_fills : (fd : ℤ) (w : W) → (net.sys_recv fd m_buf_size w).0.0 ≢ pos m_buf_size)
    (select_keeps : (n : ℕ) (rs ws es : FdSet) (w : W) (u : Use)
      → nl.Has u w
      → nl.Has u (select n rs ws es w).1)
    (select_narrows : (n : ℕ) (rs ws es : FdSet) (w : W) (k : ℕ)
      → ((select n rs ws es w).0.read_set k ≡ true → rs k ≡ true)
        × ((select n rs ws es w).0.write_set k ≡ true → ws k ≡ true))
    (select_supplies : (n : ℕ) (rs ws es : FdSet) (w : W) (fds : List ℕ)
      → Distinct fds
      → ((k : ℕ) → Member k fds → (select n rs ws es w).0.read_set k ≡ true)
      → sup.Accepts fds (select n rs ws es w).1) where
  -- What a round leaves: a valid server in which every session was attended to, or, where `select` gave
  -- -1, the server as it was.
  abbrev pub Attends : Selected → Server H → Outcome W H → Type 0
  Attends sel srv (again w' srv') =
      (sel.res ≢ negsuc 0)
      × IsValid nl hl w' srv'
      × Grows nl hl sup calls srv srv'
      × Attended nl hl sup calls sel srv srv'
  Attends sel srv (stop w' srv') = (sel.res ≡ negsuc 0) × IsValid nl hl w' srv' × (srv' ≡ srv)

  -- On a valid server a round of the loop faults nowhere. It asks `select` about the two sets that were
  -- filled. If the answer is -1 it stops and the server is as it was. If not, the server is valid again
  -- and each session was attended to: one on a descriptor that `select` chose to read from was read,
  -- once (an acceptor has accepted a connection, which joined the list, and is as it was; a connection
  -- is as its `OnRead` left it, or off the list where that gave no positive result), one that it chose to
  -- write to was written, once, in the same way, and any other is on the list, just as it was; a session
  -- that joined has a pointer that was not given before. This is where the calls on the plugins return and
  -- give ready handlers, no `recv` fills its buffer, `select` closes nothing, chooses only among the
  -- descriptors that it was asked about, and `accept` succeeds on each listening socket that it chose to
  -- read from, with a descriptor below FD_SETSIZE.
  pub round-Attends :
      (w : W) (srv : Server H)
      → IsValid nl hl w srv
      → (rs ws : FdSet) × (o : Outcome W H) × (fill_ready_read net ops calls srv fd_zero ≡ ok rs)
        × (fill_ready_write net ops calls srv fd_zero ≡ ok ws)
        × (round net ops calls select w srv ≡ ok o)
        × Attends (select srv.m_max_fd rs ws fd_zero w).0 srv o
  unfolding round fill_error close_outdated_connections
  round-Attends w srv v =
      let (rs, ws, reads, writes, split, owners) = fill_ready-splits nl hl calls w srv v in
      let chosen = select srv.m_max_fd rs ws fd_zero w in
      let narrows = select_narrows srv.m_max_fd rs ws fd_zero w in
      let carried =
        IsValid-carry nl hl w chosen.1 srv v (select_keeps srv.m_max_fd rs ws fd_zero w) in
      let from_round : round net ops calls select w srv
          ≡ after_select net ops calls chosen.0 chosen.1 srv =
        rw (reads, writes) refl in
      elim (res_cases net ops calls chosen.0 chosen.1 srv) [
        | inl (failed, e) ↦
            (rs, ws, stop chosen.1 srv, reads, writes, from_round ∙ e, (failed, carried, refl))
        | inr (fine, e) ↦
            let (w1, w2, srv1, srv2, read, wrote, v2, grown, attended) =
              read_and_send-Attended nl hl sup calls chosen.0 srv
                (λ k is_set.
                  let asked = (narrows k).1 is_set in
                  let (p, s, m, f, sock, _) = owners k (inr asked) in
                  let not_read : rs k ≡ false = rw asked at (split p k s m f sock).1 in
                  (unset_of (λ i. cc ((narrows k).0 i, not_read)), (p, s, m, f, sock)))
                handlers never_fills chosen.1 carried
                (λ p fd plugin s m f k sock.
                  let (b, answer, only) =
                    has_data_answers nl hl w srv.m_max_fd s (v.good p s m f) in
                  let has = (split p fd s m f sock).0 in
                  unset_of (λ i.
                    let is_connection : s.kind ≡ connection =
                      only (cc (answer, has, (narrows fd).1 i)) in
                    cc (is_connection, k)))
                (select_supplies srv.m_max_fd rs ws fd_zero w) in
            (
              rs,
              ws,
              again w2 srv2,
              reads,
              writes,
              from_round ∙ e ∙ rw (read, wrote) refl,
              (fine, v2, grown, attended),
            )
      ]
