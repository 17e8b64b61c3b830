-- ===== src/Server/Valid/Collect.antt =====
-- The sessions that are ready, and their descriptors.
use mod_server.Prelude.{
  ℕ, ◌≡◌, inl, inr, refl, sym, ap, ◌∙◌, true, false, some, List, [], ◌∷◌, arith, Bool-cases,
}
use mod_server.Prelude.Int.{pos}
use mod_server.Prelude.Fault.{Result, ok}
use mod_server.PluginApi.Handler.{ProtocolHandler, HandlerLaws}
use mod_server.Socket.Net.{Net, NetLaws}
use mod_server.Server.FdSet.{FdSet, fd_isset}
use mod_server.Server.Session.{Session}
use mod_server.Server.Store.{Server}
use mod_server.Server.Loop.{collect}
use mod_server.Server.Valid.{Member, Distinct, IsGood, IsValid}

module _ {W H : Type 0} {net : Net W} {ops : ProtocolHandler H} (nl : NetLaws net)
    (hl : HandlerLaws ops) where
  fd_isset_good :
      (set : FdSet) (w : W) (max_fd : ℕ) (s : Session H) (g : IsGood nl hl w max_fd s)
      → fd_isset s.m_sock.m_socket set ≡ ok (set g.fd)
  unfolding fd_isset
  fd_isset_good set w max_fd s g = ground (arith, g.handle_is, g.small)

  -- The sessions that are ready: all of them listed, each once, on a descriptor in the set.
  pub record Collected (set : FdSet) (ps : List ℕ) (srv : Server H) (r : Result (List ℕ))
      : Type 0 where
    pub ready : List ℕ
    pub returns : r ≡ ok ready
    pub among : (p : ℕ) → Member p ready → Member p ps
    pub distinct : Distinct ready
    pub in_set :
        (p fd : ℕ) (s : Session H)
        → Member p ready
        → srv.heap p ≡ some s
        → s.m_sock.m_socket ≡ pos fd
        → set fd ≡ true
    pub complete :
        (p fd : ℕ) (s : Session H)
        → Member p ps
        → srv.heap p ≡ some s
        → s.m_sock.m_socket ≡ pos fd
        → set fd ≡ true
        → Member p ready

  -- A session has one descriptor.
  same_fd :
      (w : W) (max_fd fd : ℕ) (s t : Session H) (g : IsGood nl hl w max_fd s)
      → t ≡ s
      → t.m_sock.m_socket ≡ pos fd
      → fd ≡ g.fd
  same_fd w max_fd fd s t g is_s h =
      cc (g.handle_is, ap (λ (x : Session H). x.m_sock.m_socket) is_s)

  pub collect-Collected :
      (set : FdSet) (w : W) (srv : Server H)
      → IsValid nl hl w srv
      → (ps : List ℕ) → Distinct ps
      → ((p : ℕ) → Member p ps → Member p srv.m_sessions)
      → Collected set ps srv (collect set ps srv)
  unfolding collect
  collect-Collected set w srv v [] d m = record {
    ready = [];
    returns = refl;
    among = λ p mp. mp;
    distinct = tt;
    in_set = λ p fd s mp e f. absurd mp;
    complete = λ p fd s mp e f i. absurd mp;
  }
  collect-Collected set w srv v (p ∷ ps) (out, d) m =
      let (s, e) = v.alive p (m p (inl refl)) in
      let g : IsGood nl hl w srv.m_max_fd s = v.good p s (m p (inl refl)) e in
      let rest = collect-Collected set w srv v ps d (λ q mq. m q (inr mq)) in
      elim (Bool-cases (set g.fd)) [
        | inl ready ↦ record {
          ready = p ∷ rest.ready;
          returns = rw (e, fd_isset_good set w srv.m_max_fd s g, ready, rest.returns);
          among = λ q mq. elim mq [ inl f ↦ inl f | inr mq' ↦ inr (rest.among q mq') ];
          distinct = (λ mp. out (rest.among p mp), rest.distinct);
          in_set = λ q fd t mq f h. elim mq [
            | inl same ↦
                (let is_s : t ≡ s = cc (e, ap srv.heap same) in
                  rw (same_fd w srv.m_max_fd fd s t g is_s h) ready)
            | inr mq' ↦ rest.in_set q fd t mq' f h
          ];
          complete = λ q fd t mq f h i. elim mq [
            | inl same ↦ inl same
            | inr mq' ↦ inr (rest.complete q fd t mq' f h i)
          ];
        }
        | inr idle ↦ record {
          ready = rest.ready;
          returns = rw (e, fd_isset_good set w srv.m_max_fd s g, idle, rest.returns);
          among = λ q mq. inr (rest.among q mq);
          distinct = rest.distinct;
          in_set = rest.in_set;
          complete = λ q fd t mq f h i. elim mq [
            | inl same ↦
                (let is_s : t ≡ s = cc (e, ap srv.heap same) in
                  let is_fd = same_fd w srv.m_max_fd fd s t g is_s h in
                  absurd (cc (idle, ap set is_fd)))
            | inr mq' ↦ rest.complete q fd t mq' f h i
          ];
        }
      ]

  -- The descriptors of the listed sessions, in their order.
  abbrev pub Sockets : Server H → List ℕ → List ℕ → Type 0
  Sockets srv [] [] = Unit
  Sockets srv (p ∷ ps) (fd ∷ fds) =
      ((s : Session H) × (srv.heap p ≡ some s) × (s.m_sock.m_socket ≡ pos fd)) × Sockets srv ps fds
  Sockets srv _ _ = ⊥

  -- A descriptor on the list is that of one of the sessions.
  Sockets-Member :
      (srv : Server H) (ps fds : List ℕ) (k : ℕ)
      → Sockets srv ps fds
      → Member k fds
      → (p : ℕ) × (s : Session H) × Member p ps
        × (srv.heap p ≡ some s)
        × (s.m_sock.m_socket ≡ pos k)
  Sockets-Member srv [] [] k ss m = absurd m
  Sockets-Member srv [] (fd ∷ fds) k ss m = absurd ss
  Sockets-Member srv (p ∷ ps) [] k ss m = absurd m
  Sockets-Member srv (p ∷ ps) (fd ∷ fds) k ((s, e, h), ss) m = elim m [
    | inl same ↦ (p, s, inl refl, e, h ∙ ap pos (sym same))
    | inr there ↦
        let (q, t, mq, f, g) = Sockets-Member srv ps fds k ss there in (q, t, inr mq, f, g)
  ]

  -- Where the sessions on the list are not changed, their descriptors are the same.
  pub Sockets-keep :
      (srv srv' : Server H) (ps fds : List ℕ)
      → ((p : ℕ) → Member p ps → srv'.heap p ≡ srv.heap p)
      → Sockets srv ps fds
      → Sockets srv' ps fds
  Sockets-keep srv srv' [] [] same ss = ss
  Sockets-keep srv srv' [] (fd ∷ fds) same ss = absurd ss
  Sockets-keep srv srv' (p ∷ ps) [] same ss = absurd ss
  Sockets-keep srv srv' (p ∷ ps) (fd ∷ fds) same ((s, e, h), ss) =
      ((s, same p (inl refl) ∙ e, h), Sockets-keep srv srv' ps fds (λ q m. same q (inr m)) ss)

  -- Different sessions of a valid server have different descriptors.
  pub valid-Sockets :
      (w : W) (srv : Server H)
      → IsValid nl hl w srv
      → (ps : List ℕ) → Distinct ps
      → ((p : ℕ) → Member p ps → Member p srv.m_sessions)
      → (fds : List ℕ) × Sockets srv ps fds × Distinct fds
  valid-Sockets w srv v [] d m = ([], tt, tt)
  valid-Sockets w srv v (p ∷ ps) (out, d) m =
      let (s, e) = v.alive p (m p (inl refl)) in
      let g : IsGood nl hl w srv.m_max_fd s = v.good p s (m p (inl refl)) e in
      let (fds, ss, df) = valid-Sockets w srv v ps d (λ q mq. m q (inr mq)) in
      (
        g.fd ∷ fds,
        ((s, e, g.handle_is), ss),
        (
          λ mk.
              let (q, t, mq, f, h) = Sockets-Member srv ps fds g.fd ss mk in
              v.apart p q s t (m p (inl refl)) (m q (inr mq)) (λ same. out (rw (sym same) at mq)) e
                f (g.handle_is ∙ sym h),
          df,
        ),
      )

  -- The session's descriptor is not in the set.
  abbrev pub Unready : FdSet → Server H → ℕ → Type 0
  Unready set srv p =
      (s : Session H) (fd : ℕ) → srv.heap p ≡ some s → s.m_sock.m_socket ≡ pos fd → set fd ≡ false

  pub Unready-Collected :
      (set : FdSet) (w : W) (srv : Server H) (p : ℕ)
      → IsValid nl hl w srv
      → (c : Collected set srv.m_sessions srv (collect set srv.m_sessions srv)) → Unready set srv p
      → ¬ (Member p c.ready)
  Unready-Collected set w srv p v c unready m =
      let (s, e) = v.alive p (c.among p m) in
      let g : IsGood nl hl w srv.m_max_fd s = v.good p s (c.among p m) e in
      absurd (cc (c.in_set p g.fd s m e g.handle_is, unready s g.fd e g.handle_is))

  -- The descriptors of collected sessions are in the set.
  pub Sockets-in_set :
      (set : FdSet) (ps : List ℕ) (srv : Server H) (r : Result (List ℕ))
      → (c : Collected set ps srv r) → (fds : List ℕ) → Sockets srv c.ready fds
      → (k : ℕ) → Member k fds
      → set k ≡ true
  Sockets-in_set set ps srv r c fds ss k m =
      let (p, s, mp, e, h) = Sockets-Member srv c.ready fds k ss m in c.in_set p k s mp e h
