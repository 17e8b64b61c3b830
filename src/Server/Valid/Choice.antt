-- ===== src/Server/Valid/Choice.antt =====
-- What `Run` does with the answer of `select` (server_core/server.cpp).
use mod_server.Prelude.{zero, suc, ◌≡◌, ◌≢◌, ◌⊎◌, inl, inr, refl}
use mod_server.Prelude.Int.{ℤ, pos, negsuc}
use mod_server.Prelude.Fault.{Result, ok, ◌>>=◌}
use mod_server.Server.PluginCalls.{PluginCalls}
use mod_server.PluginApi.Handler.{ProtocolHandler}
use mod_server.Socket.Net.{Net}
use mod_server.Server.Store.{Server}
use mod_server.Server.Loop.{Selected, Outcome, again, stop, after_select, read_data, send_data}

module _ {W H : Type 0} (net : Net W) (ops : ProtocolHandler H) (calls : PluginCalls H) where
  -- Reading and writing, whatever `select` chose, as long as no acceptor is written to.
  abbrev pub read_and_send : Selected → W → Server H → Result (Outcome W H)
  read_and_send sel w srv = do
    (w1, srv1) ← read_data net ops calls sel.read_set w srv
    (w2, srv2) ← send_data net ops calls sel.write_set w1 srv1
    ok (again w2 srv2)

  pub res_cases :
      (sel : Selected) (w : W) (srv : Server H)
      → ((sel.res ≡ negsuc 0) × (after_select net ops calls sel w srv ≡ ok (stop w srv)))
        ⊎ ((sel.res ≢ negsuc 0) × (after_select net ops calls sel w srv ≡ read_and_send sel w srv))
  unfolding after_select
  res_cases sel w srv = go sel.res
    where
      go :
          (r : ℤ)
          → let sel' : Selected = record sel { res = r } in
            ((r ≡ negsuc 0) × (after_select net ops calls sel' w srv ≡ ok (stop w srv)))
            ⊎ ((r ≢ negsuc 0) × (after_select net ops calls sel' w srv ≡ read_and_send sel' w srv))
      go (pos n) = inr (λ e. cc, refl)
      go (negsuc zero) = inl (refl, refl)
      go (negsuc (suc n)) = inr (λ e. cc, refl)
