-- ===== src/Http/Header.antt =====
-- `Header` (server_plugin/http/header.h).
use mod_server.Prelude.{◌++◌, Bytes}
use mod_server.Prelude.Text.{codes}

pub record Header : Type 0 where
  pub m_name : Bytes
  pub m_value : Bytes

-- `Header::ToString`.
unfoldable pub to_string : Header → Bytes
to_string h = h.m_name ++ codes ": " ++ h.m_value
