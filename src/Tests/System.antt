-- ===== src/Tests/System.antt =====
-- A concrete system, with a listener on the descriptor 3 and a connection on 4.
use mod_server.Prelude.{
  ℕ, suc, ◌+◌, ◌≤◌, ◌<◌, ◌≡◌, ◌≢◌, ◌⊎◌, inl, inr, refl, sym, ap, ◌∙◌, Bool, true, false, not, ◌&&◌,
  ◌||◌, Bool-cases, ◌==◌, ◌-◌, ltb, ltb→lt, ◌^◌, if◌then◌else◌, Option, none, some, List, [], ◌∷◌,
  arith, Bytes, length, take, length-take, replicate,
}
use mod_server.Prelude.Int.{ℤ, pos, negsuc}
use mod_server.Prelude.Text.{codes}
use mod_server.PluginApi.DataChunk.{m_buf_size}
use mod_server.PluginApi.Handler.{ProtocolHandler, HandlerLaws}
use mod_server.Prelude.Decimal
use mod_server.Http.Handler.{Env, HttpHandler, new_handler, page}
use mod_server.Http.Handler.Sending.{response}
use mod_server.Http.Contract.{http_ops, http-IsReady}
use mod_server.Socket.Net.{Net, NetLaws, Use, opened, listening}
use mod_server.Server.FdSet.{FdSet, fd_setsize}
use mod_server.Server.Session.{Session, connection, acceptor}
use mod_server.Server.Store.{Server}
use mod_server.Server.Loop.{Select}
use mod_server.Server.Valid.{Member, Distinct, IsValid, Supply}
use mod_server.Http.Plugin.{socket_type, default_port}
use mod_server.Base.CommandLine.{CommandLine, lookup, switch_value}
use mod_server.Server.PluginCalls.{PluginCalls, IsCallable}
use mod_server.PluginApi.Log.{host_log}
use mod_server.Prelude.Fault.{ok}
use mod_server.Server.Startup.{server_ip}
use mod_server.Server.IpEndPoint.{ip_size}

-- The system: a world is the number of descriptors that were ever opened, at most 1024, and every
-- connection asks for the same page.
abbrev pub accept_if : Bool → ℕ → ℤ × ℕ
accept_if room w = if room then (pos w, suc w) else (negsuc 0, w)

abbrev pub quiet_accept : ℕ → ℤ × ℕ
quiet_accept w = accept_if (ltb w 1024) w

-- 4 is the descriptor of a connection, on which `listen` and `accept` fail.
abbrev pub is_four : ℤ → Bool
is_four (pos k) = k == 4
is_four (negsuc k) = false

abbrev pub can_listen : ℤ → ℕ → Bool
can_listen (pos k) w = ltb k w && not (k == 4)
can_listen (negsuc k) w = false

abbrev pub asked : ℕ → Bytes
asked size = take size (codes "GET / HTTP/1.1")

abbrev pub quiet : Net ℕ
quiet = record {
  sys_socket = λ domain type protocol w. quiet_accept w;
  sys_close = λ fd w. (pos 0, w);
  sys_shutdown = λ fd how w. (pos 0, w);
  sys_bind = λ fd addr w. (pos 0, w);
  sys_listen = λ fd backlog w. (if can_listen fd w then pos 0 else negsuc 0, w);
  sys_accept = λ fd w. accept_if (not (is_four fd) && ltb w 1024) w;
  sys_send = λ fd text w. (pos (length text), w);
  sys_recv = λ fd size w. ((pos (length (asked size)), asked size), w);
  errno = λ w. pos 0;
  htons = λ n. n;
  inet_addr = λ text. 1;
}

abbrev pub InUse : Use → ℕ → Type 0
InUse (opened k) w = k < w
InUse (listening k) w = (k < w) × (k ≢ 4)

pub accept_keeps_open : (room : Bool) (w : ℕ) (u : Use) → InUse u w → InUse u (accept_if room w).1
accept_keeps_open true w (opened k) h = omega arith
accept_keeps_open true w (listening k) h = (omega (arith, h.0), h.1)
accept_keeps_open false w u h = h

pub listen_on_iff :
    (k w : ℕ) → (if can_listen (pos k) w then pos 0 else negsuc 0) ≡ pos 0 → InUse (listening k) w
listen_on_iff k w e = elim (Bool-cases (can_listen (pos k) w)) [
  | inl fine ↦ (ground (arith, fine), ground (arith, fine))
  | inr fails ↦ absurd (cc (rw fails at e))
]

pub accept_if-opens :
    (room : Bool) (w n : ℕ) → (accept_if room w).0 ≡ pos n → (n < (accept_if room w).1) × ¬ (n < w)
accept_if-opens true w n e = ground (arith, e)
accept_if-opens false w n e = absurd (cc)

pub accept_if-fails : (room : Bool) (w n : ℕ) → (accept_if room w).0 ≢ negsuc (suc n)
accept_if-fails true w n e = cc
accept_if-fails false w n e = cc

abbrev pub quiet-laws : NetLaws quiet
quiet-laws = record {
  Has = InUse;
  send_bounded = λ fd text n w e. ground (arith, e);
  recv_bounded = λ fd size n w e. ground (arith, e, length-take size (codes "GET / HTTP/1.1"));
  send_keeps = λ fd text w k h. h;
  recv_keeps = λ fd size w k h. h;
  shutdown_keeps = λ fd how u w ne h. h;
  close_keeps = λ fd u w ne h. h;
  socket_keeps = λ d t p w u h. accept_keeps_open (ltb w 1024) w u h;
  socket_fails = λ d t p w n e. accept_if-fails (ltb w 1024) w n e;
  socket_new = λ d t p w n e. accept_if-opens (ltb w 1024) w n e;
  bind_keeps = λ fd a w k h. h;
  listen_keeps = λ fd backlog w u h. h;
  listen_listens = λ k backlog w e. listen_on_iff k w e;
  listening_open = λ k w h. h.0;
  accept_keeps = λ fd w u h. accept_keeps_open (not (is_four fd) && ltb w 1024) w u h;
  accept_new = λ fd w n e. accept_if-opens (not (is_four fd) && ltb w 1024) w n e;
}

-- Room for as many descriptors as are listed.
abbrev pub Room : List ℕ → ℕ → Type 0
Room [] w = Unit
Room (fd ∷ fds) w = length (fd ∷ fds) + w ≤ 1024

pub Room-skip : (fd : ℕ) (fds : List ℕ) (w : ℕ) → Room (fd ∷ fds) w → Room fds w
Room-skip fd [] w h = tt
Room-skip fd (k ∷ fds) w h = omega arith

pub Room-accept :
    (fd : ℕ) (fds : List ℕ) (w : ℕ)
    → Room (fd ∷ fds) w
    → InUse (listening fd) w
    → (n : ℕ) × ((quiet.sys_accept (pos fd) w).0 ≡ pos n)
      × (n < fd_setsize)
      × Room fds (quiet.sys_accept (pos fd) w).1
Room-accept fd [] w h (_, other) = (w, ground (arith, other), omega arith, tt)
Room-accept fd (k ∷ fds) w h (_, other) =
    (w, ground (arith, other), omega arith, ground (arith, other))

abbrev pub quiet-supply : Supply quiet-laws
quiet-supply = record {
  Accepts = Room;
  accepts = Room-accept;
  skips = Room-skip;
  send_leaves = λ fd text fds w a. a;
  recv_leaves = λ fd size fds w a. a;
  shutdown_leaves = λ fd how fds w a. a;
  close_leaves = λ fd fds w a. a;
}

-- What `select` names, as long as there are descriptors left: the listener and the connection.
abbrev pub named : ℕ → FdSet
named w k = (k == 3 || k == 4) && ltb w 1000

abbrev pub quiet_select : Select ℕ
quiet_select n rs ws es w =
    (record { res = pos 2; read_set = named w; write_set = ws; error_set = es }, w)

named_one : (k w : ℕ) → named w k ≡ true → ((k ≡ 3) ⊎ (k ≡ 4)) × (w < 1000)
named_one k w e = elim (Bool-cases (k == 3)) [
  | inl three ↦ (inl (ground (arith, three)), ground (arith, e))
  | inr other ↦ (inr (ground (arith, other, e)), ground (arith, e))
]

-- Of three descriptors out of two, two are the same.
one_of_two :
    (k j i : ℕ)
    → (k ≡ 3) ⊎ (k ≡ 4)
    → (j ≡ 3) ⊎ (j ≡ 4)
    → (i ≡ 3) ⊎ (i ≡ 4)
    → (k ≡ j) ⊎ ((k ≡ i) ⊎ (j ≡ i))
one_of_two k j i a b c = grind (arith, a, b, c)

pub named_supplies :
    (w : ℕ) (fds : List ℕ) → Distinct fds → ((k : ℕ) → Member k fds → named w k ≡ true) → Room fds w
named_supplies w [] d chosen = tt
named_supplies w (k ∷ []) d chosen =
    let (_, low) = named_one k w (chosen k (inl refl)) in omega (arith, low)
named_supplies w (k ∷ j ∷ []) d chosen =
    let (_, low) = named_one k w (chosen k (inl refl)) in omega (arith, low)
named_supplies w (k ∷ j ∷ i ∷ fds) d chosen =
    let a = (named_one k w (chosen k (inl refl))).0 in
    let b = (named_one j w (chosen j (inr (inl refl)))).0 in
    let c = (named_one i w (chosen i (inr (inr (inl refl))))).0 in
    elim (one_of_two k j i a b c) [
      | inl same ↦ absurd (d.0 (inl same))
      | inr more ↦ elim more [
        | inl same ↦ absurd (d.0 (inr (inl same)))
        | inr same ↦ absurd (d.1.0 (inl same))
      ]
    ]

pub select_supplies :
    (n : ℕ) (rs ws es : FdSet) (w : ℕ) (fds : List ℕ)
    → Distinct fds
    → ((k : ℕ) → Member k fds → (quiet_select n rs ws es w).0.read_set k ≡ true)
    → Room fds w
select_supplies n rs ws es w fds d chosen = named_supplies w fds d chosen

-- A `select` that names only those it was asked about.
abbrev pub choosy_select : Select ℕ
choosy_select n rs ws es w =
    (record { res = pos 2; read_set = λ k. rs k && named w k; write_set = ws; error_set = es }, w)

pub choosy_narrows :
    (n : ℕ) (rs ws es : FdSet) (w k : ℕ)
    → ((choosy_select n rs ws es w).0.read_set k ≡ true → rs k ≡ true)
      × ((choosy_select n rs ws es w).0.write_set k ≡ true → ws k ≡ true)
choosy_narrows n rs ws es w k = (λ h. ground (arith, h), λ h. h)

pub choosy_supplies :
    (n : ℕ) (rs ws es : FdSet) (w : ℕ) (fds : List ℕ)
    → Distinct fds
    → ((k : ℕ) → Member k fds → (choosy_select n rs ws es w).0.read_set k ≡ true)
    → Room fds w
choosy_supplies n rs ws es w fds d chosen =
    named_supplies w fds d (λ k m. ground (arith, chosen k m))

abbrev pub site_of_hi : Env
site_of_hi = record {
  index_html = some (codes "hi");
  not_found_html = none;
  time_start = 5;
  time_end = 7;
}

abbrev pub chunk_memory : Bytes
chunk_memory = replicate m_buf_size 7

abbrev pub ops : ProtocolHandler HttpHandler
ops = http_ops site_of_hi chunk_memory

pub hi_fits : length (response (page site_of_hi)) < 2 ^ 31
unfolding page Decimal.to_string
hi_fits = ltb→lt _ (2 ^ 31) refl

abbrev pub laws : HandlerLaws ops
laws = (http-IsReady site_of_hi chunk_memory refl hi_fits).0

pub new-IsReady : laws.IsReady new_handler
new-IsReady = (http-IsReady site_of_hi chunk_memory refl hi_fits).1

abbrev pub plugins : PluginCalls HttpHandler
plugins = record {
  name = λ plugin. ok (codes "HTTP");
  initialize = λ plugin. ok (some host_log);
  port = λ plugin. ok default_port;
  sock_type = λ plugin. ok socket_type;
  new_protocol_handler = λ plugin. ok (some new_handler);
}

abbrev pub plugins-IsCallable : (plugin : ℕ) → IsCallable plugins plugin
plugins-IsCallable plugin = record {
  text = codes "HTTP";
  name_is = refl;
  log_fn = some host_log;
  initialize_is = refl;
  number = default_port;
  port_is = refl;
  type_of = socket_type;
  sock_type_is = refl;
  handler = new_handler;
  handler_is = refl;
}

pub plugins-ready : (plugin : ℕ) → (c : IsCallable plugins plugin) × laws.IsReady c.handler
plugins-ready plugin = (plugins-IsCallable plugin, new-IsReady)

pub never_fills : (fd : ℤ) (w : ℕ) → (quiet.sys_recv fd m_buf_size w).0.0 ≢ pos m_buf_size
never_fills fd w e = cc

abbrev pub listener : Session HttpHandler
listener = record {
  m_sock = record { m_socket = pos 3 };
  m_proto_handler = none;
  kind = acceptor 0;
}

abbrev pub talker : Session HttpHandler
talker = record {
  m_sock = record { m_socket = pos 4 };
  m_proto_handler = some new_handler;
  kind = connection;
}

abbrev pub two : ℕ → Option (Session HttpHandler)
two p = if p == 0 then some listener else if p == 1 then some talker else none

abbrev pub running : Server HttpHandler
running = record { m_sessions = 0 ∷ 1 ∷ []; m_max_fd = 5; heap = two; next = 2 }

pub two_cases :
    (p : ℕ) (s : Session HttpHandler)
    → Member p (0 ∷ 1 ∷ [])
    → two p ≡ some s
    → ((p ≡ 0) × (s ≡ listener)) ⊎ ((p ≡ 1) × (s ≡ talker))
two_cases p s (inl z) e = inl (z, cc (e, ap two z))
two_cases p s (inr (inl o)) e = inr (o, cc (e, ap two o))
two_cases p s (inr (inr never)) e = absurd never

pub running-IsValid : IsValid quiet-laws laws 5 running
running-IsValid = record {
  fresh = λ p m. elim m [
    | inl z ↦ omega arith
    | inr m' ↦ elim m' [ inl o ↦ omega arith | inr never ↦ absurd never ]
  ];
  distinct =
      (λ m. elim m [ inl z ↦ absurd (omega arith) | inr never ↦ absurd never ], (λ m. m, tt));
  alive = λ p m. elim m [
    | inl z ↦ (listener, ap two z)
    | inr m' ↦ elim m' [ inl o ↦ (talker, ap two o) | inr never ↦ absurd never ]
  ];
  good = λ p s m e. elim (two_cases p s m e) [
    | inl (z, is_s) ↦ rw is_s (record {
      fd = 3;
      handle_is = refl;
      small = ltb→lt 3 1024 refl;
      watched = ltb→lt 3 5 refl;
      is_open = ltb→lt 3 5 refl;
      listens = (ltb→lt 3 5 refl, omega arith);
      handled = tt;
    })
    | inr (o, is_s) ↦ rw is_s (record {
      fd = 4;
      handle_is = refl;
      small = ltb→lt 4 1024 refl;
      watched = ltb→lt 4 5 refl;
      is_open = ltb→lt 4 5 refl;
      listens = tt;
      handled = new-IsReady;
    })
  ];
  apart = λ p q s t mp mq ne e f. elim (two_cases p s mp e) [
    | inl (z, is_s) ↦ elim (two_cases q t mq f) [
      | inl (z', is_t) ↦ absurd (ne (z ∙ sym z'))
      | inr (o, is_t) ↦ rw (is_s, is_t) (λ same. cc)
    ]
    | inr (o, is_s) ↦ elim (two_cases q t mq f) [
      | inl (z, is_t) ↦ rw (is_s, is_t) (λ same. cc)
      | inr (o', is_t) ↦ absurd (ne (o ∙ sym o'))
    ]
  ];
}

abbrev pub local_only : CommandLine
local_only = record { m_switches = (codes "serverIp", codes "127.0.0.1") ∷ [] }

pub local_some : 0 < length (server_ip local_only)
unfolding switch_value lookup
local_some = ltb→lt 0 9 refl

pub local_short : length (server_ip local_only) < ip_size - 1
unfolding switch_value lookup
local_short = ltb→lt 9 19 refl
