-- ===== src/Server/Valid/Safety.antt =====
-- The loop of the server is safe as long as the system behaves: no round of it faults.
use mod_server.Prelude.{
  ℕ, zero, suc, ◌≡◌, ◌≢◌, inl, inr, refl, ◌∙◌, Bool, true, false, some, List, Bool-cases,
}
use mod_server.Prelude.Int.{ℤ, pos}
use mod_server.Prelude.Fault.{ok}
use mod_server.PluginApi.DataChunk.{m_buf_size}
use mod_server.Server.PluginCalls.{PluginCalls, IsCallable}
use mod_server.PluginApi.Handler.{ProtocolHandler, HandlerLaws}
use mod_server.Socket.Net.{Net, NetLaws, Use}
use mod_server.Server.FdSet.{FdSet, fd_zero}
use mod_server.Server.Session.{acceptor, Session, session_has_data, can_read}
use mod_server.Server.Store.{Server}
use mod_server.Server.Loop.{
  Selected, Select, Outcome, again, stop, fill_ready_read, fill_ready_write, fill_error,
  close_outdated_connections, after_select, round, run_rounds,
}
use mod_server.Server.Valid.{Member, Distinct, IsGood, IsValid, Supply}
use mod_server.Server.Valid.Reads.{read_data-Answered}
use mod_server.Server.Valid.Sends.{send_data-Served}
use mod_server.Server.Valid.Choice.{read_and_send, res_cases}
use mod_server.Server.Valid.Round.{
  fill-Filled, has_data_answers, can_read_answers, no_acceptor_writes, Holds, StaysValid,
  IsValid-carry,
}

module _ {W H : Type 0} {net : Net W} {ops : ProtocolHandler H} (nl : NetLaws net)
    (hl : HandlerLaws ops) (sup : Supply nl) (calls : PluginCalls H) (select : Select W)
    (handlers : (plugin : ℕ) → (c : IsCallable calls plugin) × hl.IsReady c.handler)
    (never_fills : (fd : ℤ) (w : W) → (net.sys_recv fd m_buf_size w).0.0 ≢ pos m_buf_size)
    (select_keeps : (n : ℕ) (rs ws es : FdSet) (w : W) (u : Use)
      → nl.Has u w
      → nl.Has u (select n rs ws es w).1)
    (select_narrows : (n : ℕ) (rs ws es : FdSet) (w : W) (k : ℕ)
      → (select n rs ws es w).0.write_set k ≡ true
      → ws k ≡ true)
    (select_supplies : (n : ℕ) (rs ws es : FdSet) (w : W) (fds : List ℕ)
      → Distinct fds
      → ((k : ℕ) → Member k fds → (select n rs ws es w).0.read_set k ≡ true)
      → sup.Accepts fds (select n rs ws es w).1) where
  abbrev Spares : Selected → Server H → Type 0
  Spares sel srv =
      (p fd plugin : ℕ) (s : Session H)
      → Member p srv.m_sessions
      → srv.heap p ≡ some s
      → s.kind ≡ acceptor plugin
      → s.m_sock.m_socket ≡ pos fd
      → sel.write_set fd ≡ false

  abbrev Supplies : Selected → W → Type 0
  Supplies sel w =
      (fds : List ℕ)
      → Distinct fds
      → ((k : ℕ) → Member k fds → sel.read_set k ≡ true)
      → sup.Accepts fds w

  read_and_send-IsValid :
      (sel : Selected) (w : W) (srv : Server H)
      → IsValid nl hl w srv
      → Spares sel srv
      → Supplies sel w
      → (w' : W) × (srv' : Server H) × (read_and_send net ops calls sel w srv ≡ ok (again w' srv'))
        × IsValid nl hl w' srv'
  read_and_send-IsValid sel w srv v spares supplied =
      let a =
        (read_data-Answered nl hl sup calls handlers never_fills sel.read_set w srv v supplied).0 in
      let b =
        (send_data-Served nl hl sup calls sel.write_set a.world a.server a.valid
          (λ p fd plugin s m e k sock.
            let (m', e') = a.same_acceptors p plugin s m e k in
            spares p fd plugin s m' e' k sock)).0 in
      (b.world, b.server, rw (a.returns, b.returns), b.valid)

  after_select-Holds :
      (sel : Selected) (w : W) (srv : Server H)
      → IsValid nl hl w srv
      → Spares sel srv
      → Supplies sel w
      → (o : Outcome W H) × (after_select net ops calls sel w srv ≡ ok o) × Holds nl hl sel o
  after_select-Holds sel w srv v spares supplied = elim (res_cases net ops calls sel w srv) [
    | inl (failed, e) ↦ (stop w srv, e, (v, failed))
    | inr (fine, e) ↦
        let (w', srv', r, v') = read_and_send-IsValid sel w srv v spares supplied in
        (again w' srv', e ∙ r, (v', fine))
  ]

  -- On a valid server a round of the loop faults nowhere and leaves a valid server: it asks `select`
  -- about the sets that were filled, and stops exactly if the answer is -1. This is where the calls
  -- on the plugins return and give ready handlers, no `recv` fills its buffer, `select` closes
  -- nothing and chooses no descriptor to write to that it was not asked about, and `accept` succeeds on
  -- each listening socket that it chose to read from, with a descriptor below FD_SETSIZE.
  pub round-Holds :
      (w : W) (srv : Server H)
      → IsValid nl hl w srv
      → (rs ws : FdSet) × (o : Outcome W H) × (fill_ready_read net ops calls srv fd_zero ≡ ok rs)
        × (fill_ready_write net ops calls srv fd_zero ≡ ok ws)
        × (round net ops calls select w srv ≡ ok o)
        × Holds nl hl (select srv.m_max_fd rs ws fd_zero w).0 o
  unfolding round fill_ready_read fill_ready_write fill_error close_outdated_connections
  round-Holds w srv v =
      let r =
        fill-Filled nl hl (can_read net ops) w srv v (can_read_answers nl hl w srv.m_max_fd)
          srv.m_sessions fd_zero (λ p m. m) in
      let s =
        fill-Filled nl hl (session_has_data net ops) w srv v (data_answers w srv) srv.m_sessions
          fd_zero (λ p m. m) in
      let chosen = select srv.m_max_fd r.filled s.filled fd_zero w in
      let carried =
        IsValid-carry nl hl w chosen.1 srv v
          (select_keeps srv.m_max_fd r.filled s.filled fd_zero w) in
      let (o, e, h) =
        after_select-Holds chosen.0 chosen.1 srv carried
          (λ p fd plugin a m f k sock. elim (Bool-cases (chosen.0.write_set fd)) [
            | inr unset ↦ unset
            | inl is_set ↦ absurd (
                cc (
                  select_narrows srv.m_max_fd r.filled s.filled fd_zero w fd is_set,
                  no_acceptor_writes nl hl w srv _ p fd plugin a v s m f k sock,
                ))
          ])
          (select_supplies srv.m_max_fd r.filled s.filled fd_zero w) in
      (r.filled, s.filled, o, r.returns, s.returns, rw (r.returns, s.returns) e, h)
    where
      data_answers :
          (w : W) (srv : Server H) (s : Session H)
          → IsGood nl hl w srv.m_max_fd s
          → (b : Bool) × (session_has_data net ops s ≡ ok b)
      data_answers w srv s g = let (b, e, _) = has_data_answers nl hl w srv.m_max_fd s g in (b, e)

  Holds-StaysValid : (sel : Selected) (o : Outcome W H) → Holds nl hl sel o → StaysValid nl hl o
  Holds-StaysValid sel (again w srv) h = h.0
  Holds-StaysValid sel (stop w srv) h = h.0

  -- What the rounds after one give.
  next_rounds :
      (n : ℕ) (o : Outcome W H)
      → ((w : W) (srv : Server H)
          → IsValid nl hl w srv
          → (o' : Outcome W H) × (run_rounds net ops calls n select w srv ≡ ok o')
            × StaysValid nl hl o')
      → StaysValid nl hl o
      → (o' : Outcome W H) × (elim o [
        | again w srv ↦ run_rounds net ops calls n select w srv
        | stop w srv ↦ ok (stop w srv)
      ]
          ≡ ok o')
        × StaysValid nl hl o'
  next_rounds n (again w srv) further v = further w srv v
  next_rounds n (stop w srv) further v = (stop w srv, refl, v)

  -- On a valid server no number of rounds brings a fault, and the server is valid after them, under the
  -- conditions of a single round.
  pub run_rounds-StaysValid :
      (n : ℕ) (w : W) (srv : Server H)
      → IsValid nl hl w srv
      → (o : Outcome W H) × (run_rounds net ops calls n select w srv ≡ ok o) × StaysValid nl hl o
  unfolding run_rounds
  run_rounds-StaysValid zero w srv v = (again w srv, refl, v)
  run_rounds-StaysValid (suc n) w srv v =
      let (rs, ws, o, _, _, e, h) = round-Holds w srv v in
      let chosen = select srv.m_max_fd rs ws fd_zero w in
      let (o', e', v') =
        next_rounds n o (run_rounds-StaysValid n) (Holds-StaysValid chosen.0 o h) in
      (o', rw e e', v')
