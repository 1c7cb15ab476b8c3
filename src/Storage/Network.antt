-- ===== src/Storage/Network.antt =====
-- `NetworkMappedStorage` of src/memhookcore/network_mapped_storage.cpp: every operation sends a
-- request. The stream `m_iostream` is the bytes that were put into it, in order; a connection that
-- breaks later is not modelled. Each `Send` holds `m_sbuf_mutex`.
use memhook.Prelude.{ℕ, ℤ, pos, ◌%◌, ◌^◌, Bool, true, List, [], ◌++◌}
use memhook.TraceInfo.{CallStackInfo}
use memhook.Storage.{MappedStorage}
use memhook.Wire.Types.{
  NetRequest, net_request, net_req_add, net_req_remove, net_req_update_size, net_req_clear,
  net_req_new_storage,
}
use memhook.Wire.Requests.{frame}

module _ (big_endian : Bool) where
  unfoldable pub send : NetRequest → List ℕ → List ℕ
  send request stream = stream ++ frame big_endian request

  -- The constructor, once the stream is connected.
  unfoldable pub connect : ℕ → ℤ → List ℕ
  connect pid now = send (net_request net_req_new_storage (pid % 2 ^ 32) 0 now []) []

  unfoldable pub add : ℕ → ℕ → CallStackInfo → ℤ → List ℕ → List ℕ
  add address memsize callstack timestamp =
      send (net_request net_req_add address memsize timestamp callstack)

  -- An argument that is left out is 0, the epoch or the empty call stack.
  unfoldable pub remove : ℕ → List ℕ → List ℕ × Bool
  remove address stream = (send (net_request net_req_remove address 0 (pos 0) []) stream, true)

  unfoldable pub update_size : ℕ → ℕ → List ℕ → List ℕ × Bool
  update_size address memsize stream =
      (send (net_request net_req_update_size address memsize (pos 0) []) stream, true)

  unfoldable pub clear : List ℕ → List ℕ
  clear = send (net_request net_req_clear 0 0 (pos 0) [])

  -- A flush hands on what is buffered and puts nothing into the stream.
  abbrev pub network_storage : MappedStorage
  network_storage = record {
    Store = List ℕ;
    add = add;
    remove = remove;
    update_size = update_size;
    clear = clear;
    flush = λ stream. stream;
  }
