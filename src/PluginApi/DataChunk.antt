-- ===== src/PluginApi/DataChunk.antt =====
-- `DataChunk` (plugin_api/data_chunk.h): a buffer of fixed size. `m_next` is never read.
use mod_server.Prelude.{ℕ, Bytes, set}

abbrev pub m_buf_size : ℕ
m_buf_size = 2048

pub record DataChunk : Type 0 where
  pub m_buffer : Bytes

-- `new DataChunk()` in memory that holds `raw`: only the first byte is written.
unfoldable pub new_chunk : Bytes → DataChunk
new_chunk raw = record { m_buffer = set raw 0 0 }

-- `buf_size()`.
abbrev pub buf_size : DataChunk → ℕ
buf_size c = m_buf_size
