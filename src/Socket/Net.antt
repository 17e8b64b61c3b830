-- ===== src/Socket/Net.antt =====
-- The system's socket calls, which are not part of this repository, as operations on a world `W`.
-- A call returns its result and the world after it; a failed call returns -1.
use mod_server.Prelude.{ℕ, suc, ◌≤◌, ◌≡◌, ◌≢◌, Bytes, length}
use mod_server.Prelude.Int.{ℤ, pos, negsuc}

-- `sockaddr_in`: the family is AF_INET.
pub record SockAddr : Type 0 where
  pub sin_port : ℕ
  pub s_addr : ℕ

pub record Net (W : Type 0) : Type 0 where
  pub sys_socket : ℤ → ℤ → ℤ → W → ℤ × W
  pub sys_close : ℤ → W → ℤ × W
  pub sys_shutdown : ℤ → ℤ → W → ℤ × W
  pub sys_bind : ℤ → SockAddr → W → ℤ × W
  pub sys_listen : ℤ → ℤ → W → ℤ × W
  pub sys_accept : ℤ → W → ℤ × W
  pub sys_send : ℤ → Bytes → W → ℤ × W
  -- the bytes that were written to the buffer, and the result
  pub sys_recv : ℤ → ℕ → W → (ℤ × Bytes) × W
  pub errno : W → ℤ
  pub htons : ℕ → ℕ
  pub inet_addr : Bytes → ℕ

-- What a descriptor is in use for: it is open, or it is that of a socket that listens.
pub data Use : Type 0 where
  opened listening : ℕ → Use

abbrev pub used : Use → ℕ
used (opened k) = k
used (listening k) = k

-- Documented behaviour: no more is sent than was given, no more received than asked for, as many bytes
-- are written as are reported. A descriptor stays open until it is closed itself. `socket` and `accept`
-- give a descriptor that was not open, or fail with -1. A socket listens after `listen` gave 0, and as long as it is open, until it
-- is shut down or closed itself.
pub record NetLaws {W : Type 0} (net : Net W) : Type 1 where
  pub Has : Use → W → Type 0
  pub send_bounded :
      (fd : ℤ) (text : Bytes) (n : ℕ) (w : W) → (net.sys_send fd text w).0 ≡ pos n → n ≤ length text
  pub recv_bounded :
      (fd : ℤ) (size n : ℕ) (w : W)
      → (net.sys_recv fd size w).0.0 ≡ pos n
      → (n ≤ size) × (length (net.sys_recv fd size w).0.1 ≡ n)
  pub send_keeps :
      (fd : ℤ) (text : Bytes) (w : W) (u : Use) → Has u w → Has u (net.sys_send fd text w).1
  pub recv_keeps :
      (fd : ℤ) (size : ℕ) (w : W) (u : Use) → Has u w → Has u (net.sys_recv fd size w).1
  pub shutdown_keeps :
      (fd how : ℤ) (u : Use) (w : W)
      → pos (used u) ≢ fd
      → Has u w
      → Has u (net.sys_shutdown fd how w).1
  pub close_keeps :
      (fd : ℤ) (u : Use) (w : W) → pos (used u) ≢ fd → Has u w → Has u (net.sys_close fd w).1
  pub socket_keeps : (d t p : ℤ) (w : W) (u : Use) → Has u w → Has u (net.sys_socket d t p w).1
  pub socket_fails : (d t p : ℤ) (w : W) (n : ℕ) → (net.sys_socket d t p w).0 ≢ negsuc (suc n)
  pub socket_new :
      (d t p : ℤ) (w : W) (n : ℕ)
      → (net.sys_socket d t p w).0 ≡ pos n
      → Has (opened n) (net.sys_socket d t p w).1 × ¬ (Has (opened n) w)
  pub bind_keeps :
      (fd : ℤ) (a : SockAddr) (w : W) (u : Use) → Has u w → Has u (net.sys_bind fd a w).1
  pub listen_keeps :
      (fd backlog : ℤ) (w : W) (u : Use) → Has u w → Has u (net.sys_listen fd backlog w).1
  pub listen_listens :
      (k : ℕ) (backlog : ℤ) (w : W)
      → (net.sys_listen (pos k) backlog w).0 ≡ pos 0
      → Has (listening k) (net.sys_listen (pos k) backlog w).1
  pub listening_open : (k : ℕ) (w : W) → Has (listening k) w → Has (opened k) w
  pub accept_keeps : (fd : ℤ) (w : W) (u : Use) → Has u w → Has u (net.sys_accept fd w).1
  pub accept_new :
      (fd : ℤ) (w : W) (n : ℕ)
      → (net.sys_accept fd w).0 ≡ pos n
      → Has (opened n) (net.sys_accept fd w).1 × ¬ (Has (opened n) w)
