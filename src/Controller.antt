-- ===== src/Controller.antt =====
-- The controller (server_plugin/controller), which no build file names: the end point it serves on, and
-- its handler, which keeps what it has received until a line is over.
use mod_server.Prelude.{
  ℕ, ◌≡◌, refl, ap, ◌∙◌, Bool, false, List, [], ◌∷◌, ◌++◌, ◌==◌, if◌then◌else◌, Bytes, bytes_eq,
  Option, none, some, Bool-cases, inl, inr,
}
use mod_server.Prelude.Fault.{Result, ok, ◌>>=◌}
use mod_server.Prelude.Text.{codes}
use mod_server.PluginApi.Plugin.{SockType, tcp}
use mod_server.Server.IpEndPoint.{IpEndPoint, set_ip, set_port, c_string}

-- `ip_endpoint`.
unfoldable pub controller_end_point : IpEndPoint → Result IpEndPoint
controller_end_point ep = do ep' ← set_ip ep (codes "127.0.0.1"); ok (set_port ep' 2563)

-- `sock_type` and `name`.
abbrev pub controller_sock_type : SockType
controller_sock_type = tcp

abbrev pub controller_name : Bytes
controller_name = codes "Controller"

pub record ControllerHandler : Type 0 where
  pub m_data : Bytes

-- `NewProtocolHandler`.
abbrev pub new_controller_handler : ControllerHandler
new_controller_handler = record { m_data = [] }

-- What a call does besides: the line that it logs, and whether it unloads all plugins.
pub record Heard : Type 0 where
  pub logged : Option Bytes
  pub unloads : Bool

-- `HasDataToSend`, `DidSend`, `data_to_send` and `data_to_send_size`.
abbrev pub controller_has_data : ControllerHandler → Bool
controller_has_data h = false

abbrev pub controller_did_send : ControllerHandler → ControllerHandler
controller_did_send h = h

abbrev pub controller_data_to_send : ControllerHandler → Option Bytes
controller_data_to_send h = none

abbrev pub controller_data_to_send_size : ControllerHandler → ℕ
controller_data_to_send_size h = 0

-- `m_data[m_data.length() - 1] == '\n'`, where there is a byte.
unfoldable pub ends_line : Bytes → Bool
ends_line [] = false
ends_line (c ∷ text) = elim text [ [] ↦ c == b'\n' | d ∷ more ↦ ends_line text ]

abbrev pub silent : Heard
silent = record { logged = none; unloads = false }

abbrev pub unload_command : Bytes
unload_command = codes "Unload all plugins\r\n"

-- The two tests on the data.
unfoldable pub heard : Bytes → ControllerHandler × Heard
unfolding ends_line
heard text =
    let said : Heard = record { logged = some text; unloads = bytes_eq text unload_command } in
    if ends_line text then (record { m_data = [] }, said) else (record { m_data = text }, silent)

-- `DidReceive`, on a C string; the size is not used.
unfoldable pub controller_did_receive : ControllerHandler → Bytes → ControllerHandler × Heard
unfolding heard
controller_did_receive h text = heard (h.m_data ++ c_string text)

-- The handler after pieces of text, the text that they make up behind another, and that none of them
-- ends a line.
abbrev pub after_pieces : ControllerHandler → List Bytes → ControllerHandler
after_pieces h [] = h
after_pieces h (piece ∷ pieces) = after_pieces (controller_did_receive h piece).0 pieces

abbrev pub joined : Bytes → List Bytes → Bytes
joined text [] = text
joined text (piece ∷ pieces) = joined (text ++ c_string piece) pieces

abbrev pub Waits : Bytes → List Bytes → Type 0
Waits text [] = Unit
Waits text (piece ∷ pieces) =
    (ends_line (text ++ c_string piece) ≡ false) × Waits (text ++ c_string piece) pieces

after_pieces-joined :
    (h : ControllerHandler) (pieces : List Bytes)
    → Waits h.m_data pieces
    → (after_pieces h pieces).m_data ≡ joined h.m_data pieces
unfolding controller_did_receive heard
after_pieces-joined h [] waits = refl
after_pieces-joined h (piece ∷ pieces) (no_end, waits) =
    let kept : (controller_did_receive h piece).0 ≡ record { m_data = h.m_data ++ c_string piece } =
      rw no_end refl in
    ap (λ (k : ControllerHandler). (after_pieces k pieces).m_data) kept
    ∙ after_pieces-joined (record { m_data = h.m_data ++ c_string piece }) pieces waits

-- However a text is cut into pieces, where no piece but the last may end a line, the handler hears on
-- the last what it would hear on the whole text, and what it keeps never ends a line.
pub controller_did_receive-joined :
    (h : ControllerHandler) (pieces : List Bytes) (last : Bytes)
    → Waits h.m_data pieces
    → (controller_did_receive (after_pieces h pieces) last
        ≡ heard (joined h.m_data pieces ++ c_string last))
      × (ends_line (controller_did_receive (after_pieces h pieces) last).0.m_data ≡ false)
unfolding controller_did_receive heard
controller_did_receive-joined h pieces last waits =
    (rw (after_pieces-joined h pieces waits) refl, keeps (after_pieces h pieces).m_data)
  where
    keeps : (text : Bytes) → ends_line (heard (text ++ c_string last)).0.m_data ≡ false
    keeps text = elim (Bool-cases (ends_line (text ++ c_string last))) [
      | inl over ↦ rw over refl
      | inr further ↦ rw further further
    ]
