-- ===== src/Server/Store.antt =====
-- The server's state (server_core/server.h) with the heap of its sessions, and `RegisterSession`.
use mod_server.Prelude.{
  ℕ, suc, ◌+◌, ◌-◌, ◌%◌, ◌^◌, Option, none, some, List, [], ◌∷◌, ◌++◌, leb, ◌==◌, if◌then◌else◌,
}
use mod_server.Prelude.Int.{ℤ, pos, negsuc}
use mod_server.Prelude.Fault.{Result, ok, fault, freed_pointer, bad_write, ◌>>=◌}
use mod_server.Socket.TcpSocket.{handle}
use mod_server.Server.Session.{Session}

-- `m_sessions` holds pointers into `heap`, where `next` is the next pointer that `new` gives.
pub record Server (H : Type 0) : Type 0 where
  pub m_sessions : List ℕ
  pub m_max_fd : ℕ
  pub heap : ℕ → Option (Session H)
  pub next : ℕ

-- A conversion to `unsigned int`.
abbrev pub to_unsigned : ℤ → ℕ
to_unsigned (pos n) = n % 2 ^ 32
to_unsigned (negsuc n) = 2 ^ 32 - 1 - n

-- `if (sockId >= m_maxFd) m_maxFd = sockId + 1;` between an `int` and an `unsigned int`.
unfoldable pub raise_max_fd : ℤ → ℕ → ℕ
raise_max_fd sock_id max_fd =
    if leb max_fd (to_unsigned sock_id) then (to_unsigned sock_id + 1) % 2 ^ 32 else max_fd

module _ {H : Type 0} where
  -- `Server()`.
  unfoldable pub new_server : Server H
  new_server = record { m_sessions = []; m_max_fd = 0; heap = λ p. none; next = 0 }

  -- What a pointer points at.
  abbrev pub deref_session : Option (Session H) → Result (Session H)
  deref_session none = fault freed_pointer
  deref_session (some s) = ok s

  abbrev pub load : ℕ → Server H → Result (Session H)
  load p srv = deref_session (srv.heap p)

  abbrev pub store : ℕ → Option (Session H) → Server H → Server H
  store p s srv = record srv { heap = λ q. if p == q then s else srv.heap q }

  -- `RegisterSession`.
  unfoldable pub register_session : ℕ → Server H → Result (Server H)
  register_session p srv = do
    s ← load p srv
    ok (record srv {
      m_max_fd = raise_max_fd (handle s.m_sock) srv.m_max_fd;
      m_sessions = srv.m_sessions ++ p ∷ [];
    })

  -- `new`: the pointer is `srv.next`.
  abbrev pub new_session : Session H → Server H → Server H
  new_session s srv = record (store srv.next (some s) srv) { next = suc srv.next }

-- `RemoveFromVector`: to erase the end is a fault.
unfoldable pub remove_from_vector : ℕ → List ℕ → Result (List ℕ)
remove_from_vector p [] = fault bad_write
remove_from_vector p (q ∷ qs) =
    let rest : Result (List ℕ) = (do tail ← remove_from_vector p qs; ok (q ∷ tail)) in
    if q == p then ok qs else rest
