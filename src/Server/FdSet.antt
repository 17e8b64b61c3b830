-- ===== src/Server/FdSet.antt =====
-- `fd_set` and its macros, which the server uses, with FD_SETSIZE of the UNIX build. A descriptor outside
-- the set's range is a fault.
use mod_server.Prelude.{ℕ, Bool, false, ◌||◌, ◌==◌, ltb, if◌then◌else◌}
use mod_server.Prelude.Int.{ℤ, pos, negsuc}
use mod_server.Prelude.Fault.{Result, ok, fault, bad_read, bad_write}

abbrev pub FdSet : Type 0
FdSet = ℕ → Bool

abbrev pub fd_setsize : ℕ
fd_setsize = 1024

-- `FD_ZERO`.
abbrev pub fd_zero : FdSet
fd_zero k = false

-- `FD_SET`.
unfoldable pub fd_set : ℤ → FdSet → Result FdSet
fd_set (pos fd) s = if ltb fd fd_setsize then ok (λ k. fd == k || s k) else fault bad_write
fd_set (negsuc n) s = fault bad_write

-- `FD_ISSET`.
unfoldable pub fd_isset : ℤ → FdSet → Result Bool
fd_isset (pos fd) s = if ltb fd fd_setsize then ok (s fd) else fault bad_read
fd_isset (negsuc n) s = fault bad_read
