-- ===== src/PluginApi/Handler.antt =====
-- `ProtocolHandler` (plugin_api/protocol_handler.h): what the server calls on a plugin's handler, and
-- what it relies on. `H` is the handler's state.
use mod_server.Prelude.Memory.{memory, read_bytes}
use mod_server.Prelude.{ℕ, ◌≤◌, ◌<◌, ◌^◌, ◌≡◌, Bool, Option, Bytes, length, not, is_empty, drop}
use mod_server.Prelude.Int.{ℤ, pos}
use mod_server.Prelude.Fault.{Result, ok}
use mod_server.PluginApi.DataChunk.{DataChunk, buf_size}

pub record ProtocolHandler (H : Type 0) : Type 0 where
  pub has_data_to_send : H → Bool
  pub did_receive : H → DataChunk → ℤ → Result H
  pub did_send : H → ℤ → Result H
  pub data_to_send : H → Option Bytes
  pub data_to_send_size : H → ℕ
  pub allocate_chunk : H → DataChunk
  pub discard_chunk : H → DataChunk → H

-- The contract: a ready handler takes every chunk and every report of a send that the server can give
-- it, stays ready, and shows as many bytes as it says.
pub record HandlerLaws {H : Type 0} (ops : ProtocolHandler H) : Type 1 where
  pub IsReady : H → Type 0
  pub allocates : (h : H) → length (ops.allocate_chunk h).m_buffer ≡ buf_size (ops.allocate_chunk h)
  pub receives :
      (h : H) (c : DataChunk) (n : ℕ)
      → IsReady h
      → 0 < n
      → n ≤ length c.m_buffer
      → (h' : H) × (ops.did_receive h c (pos n) ≡ ok h') × IsReady h'
  pub sends :
      (h : H) (k : ℕ)
      → IsReady h
      → 0 < k
      → k ≤ ops.data_to_send_size h
      → (h' : H) × (ops.did_send h (pos k) ≡ ok h') × IsReady h'
  pub shows : (h : H) → ops.data_to_send_size h ≤ length (memory (ops.data_to_send h))
  -- the server hands the size over as an `int`
  pub fits : (h : H) → IsReady h → ops.data_to_send_size h < 2 ^ 31
  pub discards : (h : H) (c : DataChunk) → IsReady h → IsReady (ops.discard_chunk h c)

-- A further promise: what a handler has to send is a queue of bytes. It shows the whole queue, is busy
-- while the queue holds anything, and takes off the front what was sent.
pub record StreamLaws {H : Type 0} (ops : ProtocolHandler H) : Type 0 where
  pub pending : H → Bytes
  pub busy_is : (h : H) → ops.has_data_to_send h ≡ not (is_empty (pending h))
  pub size_is : (h : H) → ops.data_to_send_size h ≡ length (pending h)
  pub shows_is :
      (h : H) → read_bytes (ops.data_to_send_size h) (memory (ops.data_to_send h)) ≡ ok (pending h)
  pub sends_is :
      (h : H) (k : ℕ)
      → 0 < k
      → k ≤ length (pending h)
      → (h' : H) × (ops.did_send h (pos k) ≡ ok h') × (pending h' ≡ drop k (pending h))
