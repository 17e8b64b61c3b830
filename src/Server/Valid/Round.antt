-- ===== src/Server/Valid/Round.antt =====
-- A whole round of the loop, and any number of rounds, where the server is valid.
use mod_server.Prelude.{
  ℕ, ◌≡◌, ◌≢◌, ◌⊎◌, inl, inr, refl, sym, ap, ◌∙◌, Bool, true, false, not, Option, none, some, List,
  [], ◌∷◌, arith, ◌==◌, ◌||◌, Bool-cases,
}
use mod_server.Prelude.Int.{pos, negsuc}
use mod_server.Prelude.Fault.{Result, ok}
use mod_server.PluginApi.Handler.{ProtocolHandler, HandlerLaws}
use mod_server.Socket.Net.{Net, NetLaws, opened}
use mod_server.Server.FdSet.{FdSet, fd_zero, fd_set}
use mod_server.Server.Session.{Kind, connection, acceptor, Session, session_has_data, can_read}
use mod_server.Server.Store.{Server}
use mod_server.Server.Loop.{Selected, Outcome, again, stop, fill}
use mod_server.Server.Valid.{Member, HasHandler, IsGood, IsValid}
use mod_server.Server.Valid.Keeps.{Carries, Listens-carry}

module _ {W H : Type 0} {net : Net W} {ops : ProtocolHandler H} (nl : NetLaws net)
    (hl : HandlerLaws ops) where
  -- A test on a listed session gives an answer.
  pub has_data_answers :
      (w : W) (max_fd : ℕ) (s : Session H)
      → IsGood nl hl w max_fd s
      → (b : Bool) × (session_has_data net ops s ≡ ok b) × (b ≡ true → s.kind ≡ connection)
  unfolding session_has_data
  has_data_answers w max_fd s g = go s.kind s.m_proto_handler g.handled
    where
      go :
          (kind : Kind) (h? : Option H)
          → HasHandler nl hl kind h?
          → (b : Bool) × (session_has_data net ops
                (record { m_sock = s.m_sock; m_proto_handler = h?; kind = kind })
              ≡ ok b)
            × (b ≡ true → kind ≡ connection)
      go connection none r = absurd r
      go connection (some h) r = (ops.has_data_to_send h, refl, λ e. refl)
      go (acceptor plugin) h? r = (false, refl, λ e. absurd (cc))

  pub can_read_answers :
      (w : W) (max_fd : ℕ) (s : Session H)
      → IsGood nl hl w max_fd s
      → (b : Bool) × (can_read net ops s ≡ ok b)
  unfolding can_read session_has_data
  can_read_answers w max_fd s g = go s.kind s.m_proto_handler g.handled
    where
      go :
          (kind : Kind) (h? : Option H)
          → HasHandler nl hl kind h?
          → (b : Bool) × (can_read net ops
                (record { m_sock = s.m_sock; m_proto_handler = h?; kind = kind })
              ≡ ok b)
      go connection none r = absurd r
      go connection (some h) r = (not (ops.has_data_to_send h), refl)
      go (acceptor plugin) h? r = (true, refl)

  -- The set that `fill` makes: what was there, and descriptors of sessions that pass the test.
  pub record Filled (test : Session H → Result Bool) (ps : List ℕ) (srv : Server H) (set : FdSet)
      (r : Result FdSet) : Type 0 where
    pub filled : FdSet
    pub returns : r ≡ ok filled
    pub why :
        (k : ℕ)
        → filled k ≡ true
        → (set k ≡ true)
          ⊎ ((p : ℕ) × (s : Session H) × Member p ps
              × (srv.heap p ≡ some s)
              × (s.m_sock.m_socket ≡ pos k)
              × (test s ≡ ok true))
    pub keeps : (k : ℕ) → set k ≡ true → filled k ≡ true
    pub hits :
        (p k : ℕ) (s : Session H)
        → Member p ps
        → srv.heap p ≡ some s
        → s.m_sock.m_socket ≡ pos k
        → test s ≡ ok true
        → filled k ≡ true

  fd_set_good :
      (w : W) (max_fd : ℕ) (s : Session H) (set : FdSet) (g : IsGood nl hl w max_fd s)
      → fd_set s.m_sock.m_socket set ≡ ok (λ k. g.fd == k || set k)
  unfolding fd_set
  fd_set_good w max_fd s set g = ground (arith, g.handle_is, g.small)

  pub fill-Filled :
      (test : Session H → Result Bool) (w : W) (srv : Server H)
      → IsValid nl hl w srv
      → ((s : Session H) → IsGood nl hl w srv.m_max_fd s → (b : Bool) × (test s ≡ ok b))
      → (ps : List ℕ) (set : FdSet) → ((p : ℕ) → Member p ps → Member p srv.m_sessions)
      → Filled test ps srv set (fill test ps srv set)
  unfolding fill
  fill-Filled test w srv v answers [] set m = record {
    filled = set;
    returns = refl;
    why = λ k e. inl e;
    keeps = λ k e. e;
    hits = λ p k s mp e sock passes. absurd mp;
  }
  fill-Filled test w srv v answers (p ∷ ps) set m =
      let (s, e) = v.alive p (m p (inl refl)) in
      let g : IsGood nl hl w srv.m_max_fd s = v.good p s (m p (inl refl)) e in
      let (b, t) = answers s g in
      elim (Bool-cases b) [
        | inl yes_b ↦
            let passes : test s ≡ ok true = t ∙ ap ok yes_b in
            let rest =
              fill-Filled test w srv v answers ps (λ k. g.fd == k || set k)
                (λ q mq. m q (inr mq)) in
            record {
              filled = rest.filled;
              returns = rw (e, passes, fd_set_good w srv.m_max_fd s set g, rest.returns);
              why = λ k h. elim (rest.why k h) [
                | inl here ↦ elim (Bool-cases (g.fd == k)) [
                  | inl same ↦
                      let is_k : g.fd ≡ k = ground arith in
                      inr (p, s, inl refl, e, g.handle_is ∙ ap pos is_k, passes)
                  | inr other ↦ inl (ground arith)
                ]
                | inr (q, a, mq, f, sock, passes_a) ↦ inr (q, a, inr mq, f, sock, passes_a)
              ];
              keeps = λ k h. rest.keeps k (ground (arith, h));
              hits = λ q k a mq f sock passes_a. elim mq [
                | inl same ↦
                    let is_s : a ≡ s = cc (e, f, ap srv.heap same) in
                    let is_k : g.fd ≡ k =
                      cc (g.handle_is, sock, ap (λ (x : Session H). x.m_sock.m_socket) is_s) in
                    rest.keeps k (ground arith)
                | inr mq' ↦ rest.hits q k a mq' f sock passes_a
              ];
            }
        | inr no_b ↦
            let fails : test s ≡ ok false = t ∙ ap ok no_b in
            let rest = fill-Filled test w srv v answers ps set (λ q mq. m q (inr mq)) in
            record {
              filled = rest.filled;
              returns = rw (e, fails, rest.returns);
              why = λ k h. elim (rest.why k h) [
                | inl here ↦ inl here
                | inr (q, a, mq, f, sock, passes_a) ↦ inr (q, a, inr mq, f, sock, passes_a)
              ];
              keeps = rest.keeps;
              hits = λ q k a mq f sock passes_a. elim mq [
                | inl same ↦
                    let is_s : a ≡ s = cc (e, f, ap srv.heap same) in
                    absurd (cc (fails, passes_a, ap test is_s))
                | inr mq' ↦ rest.hits q k a mq' f sock passes_a
              ];
            }
      ]

  -- The write set holds no acceptor's descriptor: only connections have data, and no two sessions
  -- share a descriptor.
  pub no_acceptor_writes :
      (w : W) (srv : Server H) (r : Result FdSet) (p k plugin : ℕ) (s : Session H)
      → IsValid nl hl w srv
      → (f : Filled (session_has_data net ops) srv.m_sessions srv fd_zero r)
      → Member p srv.m_sessions
      → srv.heap p ≡ some s
      → s.kind ≡ acceptor plugin
      → s.m_sock.m_socket ≡ pos k
      → f.filled k ≡ false
  no_acceptor_writes w srv r p k plugin s v f m e is_acceptor sock =
      elim (Bool-cases (f.filled k)) [
        | inr unset ↦ unset
        | inl is_set ↦ elim (f.why k is_set) [
          | inl never ↦ absurd (cc)
          | inr (q, a, mq, g, sock_a, passes) ↦
              let good : IsGood nl hl w srv.m_max_fd a = v.good q a mq g in
              let (b, answer, only) = has_data_answers w srv.m_max_fd a good in
              let is_connection : a.kind ≡ connection = only (cc) in
              elim (Bool-cases (p == q)) [
                | inl same ↦
                    let is_q : p ≡ q = ground arith in
                    let is_s : s ≡ a = cc (e, g, ap srv.heap is_q) in
                    absurd (cc (is_connection, is_acceptor, ap (λ (x : Session H). x.kind) is_s))
                | inr other ↦ absurd (v.apart p q s a m mq (ground arith) e g (sock ∙ sym sock_a))
              ]
        ]
      ]

  -- What a round leaves: a valid server, and it goes on unless `select` gave -1.
  abbrev pub Holds : Selected → Outcome W H → Type 0
  Holds sel (again w srv) = IsValid nl hl w srv × (sel.res ≢ negsuc 0)
  Holds sel (stop w srv) = IsValid nl hl w srv × (sel.res ≡ negsuc 0)

  -- The server is valid at the end.
  abbrev pub StaysValid : Outcome W H → Type 0
  StaysValid (again w srv) = IsValid nl hl w srv
  StaysValid (stop w srv) = IsValid nl hl w srv

  pub IsValid-carry :
      (w w' : W) (srv : Server H) → IsValid nl hl w srv → Carries nl hl w w' → IsValid nl hl w' srv
  IsValid-carry w w' srv v c = record {
    fresh = v.fresh;
    distinct = v.distinct;
    alive = v.alive;
    good = λ p s m e.
        let g : IsGood nl hl w srv.m_max_fd s = v.good p s m e in
        record {
          fd = g.fd;
          handle_is = g.handle_is;
          small = g.small;
          watched = g.watched;
          is_open = c (opened g.fd) g.is_open;
          listens = Listens-carry nl hl c s.kind g.fd g.listens;
          handled = g.handled;
        };
    apart = v.apart;
  }
