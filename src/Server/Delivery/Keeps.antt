-- ===== src/Server/Delivery/Keeps.antt =====
-- What stays the same of a connection while it sends (ConnectionSession::OnWrite of tcp_session.cpp).
use mod_server.Prelude.{ℕ, ◌≡◌, inl, inr, refl, ◌∙◌, some, [], Bytes, Bool-cases}
use mod_server.Prelude.Memory.{memory, read_bytes}
use mod_server.Prelude.Int.{ℤ}
use mod_server.Prelude.Fault.{ok, >>=-ok}
use mod_server.PluginApi.Handler.{ProtocolHandler}
use mod_server.Socket.Net.{Net}
use mod_server.Socket.TcpSocket.{send}
use mod_server.Server.Session.{Session, is_pos, after_send, connection_on_write, send_size}
use mod_server.Server.Delivery.{Wire, recorded, Sent, none_yet, sent_more}

module _ {W H : Type 0} (net : Net W) (ops : ProtocolHandler H) where
  -- A property of handlers that `DidSend` keeps.
  abbrev pub Lasts : (H → Type 0) → Type 0
  Lasts P = (h h' : H) (rc : ℤ) → P h → ops.did_send h rc ≡ ok h' → P h'

  -- The session has such a handler, and the socket and the class of another session.
  pub record Same (P : H → Type 0) (s s' : Session H) : Type 0 where
    pub handler : H
    pub holds : s'.m_proto_handler ≡ some handler
    pub lasting : P handler
    pub same_socket : s'.m_sock ≡ s.m_sock
    pub same_kind : s'.kind ≡ s.kind

  after_send-lasts :
      (P : H → Type 0)
      → Lasts P
      → (h h' : H) (rc : ℤ) → P h
      → after_send (recorded net) ops h rc ≡ ok h'
      → P h'
  unfolding after_send
  after_send-lasts P lasts h h' rc p e = elim (Bool-cases (is_pos rc)) [
    | inl more ↦ lasts h h' rc p (rw more at e)
    | inr done ↦ let same : h ≡ h' = cc (rw done at e) in rw (← same) p
  ]

  connection_on_write-Same :
      (P : H → Type 0)
      → Lasts P
      → (s s' : Session H) (h : H) (w w' : W × Wire) (rc err : ℤ) → s.m_proto_handler ≡ some h
      → P h
      → connection_on_write (recorded net) ops s w ≡ ok (rc, err, s', w')
      → Same P s s'
  unfolding connection_on_write send
  connection_on_write-Same P lasts s s' h w w' rc err holds p e =
      let (text, _, e1) =
        >>=-ok (read_bytes (send_size (ops.data_to_send_size h)) (memory (ops.data_to_send h))) _
          (rw holds at e) in
      let got = (recorded net).sys_send s.m_sock.m_socket text w in
      let (h', after, e2) = >>=-ok (after_send (recorded net) ops h got.0) _ e1 in
      let is_s : record s { m_proto_handler = some h' } ≡ s' = cc (e2) in
      rw (← is_s) (record {
        handler = h';
        holds = refl;
        lasting = after_send-lasts P lasts h h' got.0 p after;
        same_socket = refl;
        same_kind = refl;
      })

  -- However many calls have sent something.
  pub Sent-Same :
      (P : H → Type 0)
      → Lasts P
      → (world_at : ℕ → W) (s : Session H) (h : H) {n : ℕ} {out : Bytes} {s' : Session H}
      → s.m_proto_handler ≡ some h
      → P h
      → Sent net ops world_at s n out s'
      → Same P s s'
  Sent-Same P lasts world_at s h holds p none_yet = record {
    handler = h;
    holds = holds;
    lasting = p;
    same_socket = refl;
    same_kind = refl;
  }
  Sent-Same P lasts world_at s h holds p (sent_more {n} {out} {t} {t'} k err w' bytes before now) =
      let a = Sent-Same P lasts world_at s h holds p before in
      let b =
        connection_on_write-Same P lasts t t' a.handler (world_at n, []) _ _ err a.holds a.lasting
          now in
      record {
        handler = b.handler;
        holds = b.holds;
        lasting = b.lasting;
        same_socket = b.same_socket ∙ a.same_socket;
        same_kind = b.same_kind ∙ a.same_kind;
      }
