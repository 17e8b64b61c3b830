-- ===== src/Server/Valid/Keeps.antt =====
-- Writing to a session and registering one keep the server valid.
use mod_server.Prelude.{
  ℕ, suc, ◌≤◌, ◌<◌, ◌≡◌, ◌≢◌, ◌⊎◌, inl, inr, refl, sym, ap, ◌∙◌, some, [], ◌∷◌, ◌++◌, arith, ◌==◌,
  if◌then◌else◌, Bool-cases,
}
use mod_server.Prelude.Int.{pos}
use mod_server.Prelude.Fault.{ok}
use mod_server.PluginApi.Handler.{ProtocolHandler, HandlerLaws}
use mod_server.Socket.Net.{Net, NetLaws, Use, opened, listening}
use mod_server.Server.FdSet.{fd_setsize}
use mod_server.Server.Session.{Kind, connection, acceptor, Session}
use mod_server.Server.Store.{Server, store, raise_max_fd, register_session, new_session}
use mod_server.Server.Valid.{Member, HasHandler, Listens, IsGood, IsValid}
use mod_server.Server.Valid.Lists.{heap_cases, Member-concat, Distinct-concat, raise_max_fd_lem}

module _ {W H : Type 0} {net : Net W} {ops : ProtocolHandler H} (nl : NetLaws net)
    (hl : HandlerLaws ops) where
  -- What was open stays open, and what listened listens.
  abbrev pub Carries : W → W → Type 0
  Carries w w' = (u : Use) → nl.Has u w → nl.Has u w'

  pub Listens-carry :
      {w w' : W}
      → Carries w w'
      → (kind : Kind) (fd : ℕ) → Listens nl hl kind fd w
      → Listens nl hl kind fd w'
  Listens-carry c connection fd l = tt
  Listens-carry c (acceptor plugin) fd l = c (listening fd) l

  IsGood-mono :
      {w w' : W} {m m' : ℕ} {s : Session H}
      → Carries w w'
      → m ≤ m'
      → IsGood nl hl w m s
      → IsGood nl hl w' m' s
  IsGood-mono {s = s} c le g = record {
    fd = g.fd;
    handle_is = g.handle_is;
    small = g.small;
    watched = omega arith;
    is_open = c (opened g.fd) g.is_open;
    listens = Listens-carry c s.kind g.fd g.listens;
    handled = g.handled;
  }

  IsGood-same :
      {w w' : W} {m : ℕ} {s : Session H} (t : Session H)
      → Carries w w'
      → t.m_sock ≡ s.m_sock
      → t.kind ≡ s.kind
      → HasHandler nl hl t.kind t.m_proto_handler
      → IsGood nl hl w m s
      → IsGood nl hl w' m t
  IsGood-same t c e same_kind h g = record {
    fd = g.fd;
    handle_is = ap (λ k. k.m_socket) e ∙ g.handle_is;
    small = g.small;
    watched = g.watched;
    is_open = c (opened g.fd) g.is_open;
    listens = Listens-carry c t.kind g.fd (rw same_kind g.listens);
    handled = h;
  }

  module _ (w w' : W) (srv : Server H) (v : IsValid nl hl w srv) (carry : Carries w w') where
    -- A session is written back, on its socket.
    pub store-IsValid :
        (p : ℕ) (s t : Session H)
        → Member p srv.m_sessions
        → srv.heap p ≡ some s
        → t.m_sock ≡ s.m_sock
        → t.kind ≡ s.kind
        → HasHandler nl hl t.kind t.m_proto_handler
        → IsValid nl hl w' (store p (some t) srv)
    store-IsValid p s t m e same same_kind h = record {
      fresh = v.fresh;
      distinct = v.distinct;
      alive = λ q mq. elim (Bool-cases (p == q)) [
        | inl here ↦ (t, rw here)
        | inr there ↦ let (a, f) = v.alive q mq in (a, rw there f)
      ];
      good = λ q a mq f. elim (heap_cases srv.heap p q (some t) a f) [
        | inl (here, is_t) ↦
            let g : IsGood nl hl w' srv.m_max_fd t =
              IsGood-same t carry same same_kind h (v.good p s m e) in
            let eq : t ≡ a = cc in rw eq at g
        | inr (there, f') ↦ IsGood-mono carry (omega arith) (v.good q a mq f')
      ];
      apart = λ q r a b mq mr ne f g. elim (heap_cases srv.heap p q (some t) a f) [
        | inl (here, is_t) ↦ elim (heap_cases srv.heap p r (some t) b g) [
          | inl (here', is_t') ↦ absurd (ne (sym here ∙ here'))
          | inr (there, g') ↦
              λ eq. v.apart p r s b m mr there e g' (ap (λ k. k.m_socket) (sym same) ∙ cc)
        ]
        | inr (there, f') ↦ elim (heap_cases srv.heap p r (some t) b g) [
          | inl (here, is_t) ↦
              λ eq. v.apart p q s a m mq there e f' (ap (λ k. k.m_socket) (sym same) ∙ cc)
          | inr (there', g') ↦ v.apart q r a b mq mr ne f' g'
        ]
      ];
    }

  -- The server with a new session behind the others.
  abbrev pub registered : Session H → ℕ → Server H → Server H
  registered a n srv = record {
    m_sessions = srv.m_sessions ++ srv.next ∷ [];
    m_max_fd = raise_max_fd (pos n) srv.m_max_fd;
    heap = λ q. if srv.next == q then some a else srv.heap q;
    next = suc srv.next;
  }

  pub register-registered :
      (a : Session H) (n : ℕ) (srv : Server H)
      → a.m_sock.m_socket ≡ pos n
      → register_session srv.next (new_session a srv) ≡ ok (registered a n srv)
  unfolding register_session
  register-registered a n srv e = ground arith

  module _ (w w' : W) (srv : Server H) (v : IsValid nl hl w srv) (carry : Carries w w') where
    pub old-ne-next : (p : ℕ) → Member p srv.m_sessions → p ≢ srv.next
    old-ne-next p m e = absurd (omega (arith, v.fresh p m))

    -- What the heap holds at a member of the longer list.
    pub registered_cases :
        (a : Session H) (n p : ℕ) (s : Session H)
        → Member p (registered a n srv).m_sessions
        → (registered a n srv).heap p ≡ some s
        → (Member p srv.m_sessions × (srv.heap p ≡ some s)) ⊎ ((p ≡ srv.next) × (s ≡ a))
    registered_cases a n p s m e = elim (heap_cases srv.heap srv.next p (some a) s e) [
      | inl (here, is_a) ↦ inr (sym here, cc)
      | inr (there, f) ↦ elim (Member-concat p srv.next srv.m_sessions m) [
        | inl old ↦ inl (old, f)
        | inr new ↦ absurd (there (sym new))
      ]
    ]

    module _ (a : Session H) (n : ℕ) (handle_is : a.m_sock.m_socket ≡ pos n)
        (small : n < fd_setsize) (is_open : nl.Has (opened n) w')
        (closed_before : ¬ (nl.Has (opened n) w)) (listens : Listens nl hl a.kind n w')
        (handled : HasHandler nl hl a.kind a.m_proto_handler) where
      a-apart :
          (p : ℕ) (s : Session H)
          → Member p srv.m_sessions
          → srv.heap p ≡ some s
          → s.m_sock.m_socket ≢ a.m_sock.m_socket
      a-apart p s m e eq =
          let g : IsGood nl hl w srv.m_max_fd s = v.good p s m e in
          let same : g.fd ≡ n = cc (g.handle_is, handle_is, eq) in
          closed_before (rw same at g.is_open)

      -- A session on a new descriptor joins.
      pub registered-IsValid : IsValid nl hl w' (registered a n srv)
      registered-IsValid = record {
        fresh = λ p m. elim (Member-concat p srv.next srv.m_sessions m) [
          | inl old ↦ omega (arith, v.fresh p old)
          | inr new ↦ omega arith
        ];
        distinct =
            Distinct-concat srv.next srv.m_sessions v.distinct (λ m. old-ne-next srv.next m refl);
        alive = λ p m. elim (Bool-cases (srv.next == p)) [
          | inl here ↦ (a, rw here)
          | inr there ↦ elim (Member-concat p srv.next srv.m_sessions m) [
            | inl old ↦ let (s, f) = v.alive p old in (s, rw there f)
            | inr new ↦ absurd (ground arith)
          ]
        ];
        good = λ p s m e. elim (registered_cases a n p s m e) [
          | inl (old, f) ↦
              IsGood-mono carry (raise_max_fd_lem n srv.m_max_fd small).0 (v.good p s old f)
          | inr (here, is_a) ↦ rw is_a (record {
            fd = n;
            handle_is = handle_is;
            small = small;
            watched = (raise_max_fd_lem n srv.m_max_fd small).1;
            is_open = is_open;
            listens = listens;
            handled = handled;
          })
        ];
        apart = λ p q s t mp mq ne e f. elim (registered_cases a n p s mp e) [
          | inl (old, e') ↦ elim (registered_cases a n q t mq f) [
            | inl (old', f') ↦ v.apart p q s t old old' ne e' f'
            | inr (here, is_a) ↦ rw is_a (a-apart p s old e')
          ]
          | inr (here, is_a) ↦ elim (registered_cases a n q t mq f) [
            | inl (old', f') ↦ rw is_a (λ eq. a-apart q t old' f' (sym eq))
            | inr (here', is_a') ↦ absurd (ne (here ∙ sym here'))
          ]
        ];
      }
