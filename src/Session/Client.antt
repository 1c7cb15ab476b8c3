-- ===== src/Session/Client.antt =====
-- A storage of src/memhookcore/network_mapped_storage.cpp and the session of
-- src/memdb/memdb_session.cpp at the other end of its connection.
use memhook.Prelude.{
  ℕ, ℤ, suc, pos, ◌*◌, ◌≤◌, ◌%◌, ◌^◌, ◌≡◌, refl, ap, sym, ◌∙◌, Bool, none, some, List, [], ◌∷◌,
  ◌++◌, length, map, All, arith, append_assoc, append-nil,
}
use memhook.TraceInfo.{CallStackInfo}
use memhook.Storage.{MappedStorage}
use memhook.Storage.Network.{send, connect, add, remove, update_size, network_storage}
use memhook.Wire.Types.{
  NetRequest, net_request, net_req_add, net_req_remove, net_req_update_size, net_req_new_storage,
}
use memhook.Wire.Requests.{frame}
use memhook.Session.{Callback, Handled, handle_net_request, Served, serve}
use memhook.Session.Serve.{IsFramed, frames, AllHandled, serve-frames}

-- What a client does with its storage.
pub data Operation : Type 0 where
  op_add : ℕ → ℕ → CallStackInfo → ℤ → Operation
  op_remove : ℕ → Operation
  op_update_size : ℕ → ℕ → Operation

abbrev pub perform : (m : MappedStorage) → Operation → m.Store → m.Store
perform m (op_add address memsize callstack timestamp) s =
    m.add address memsize callstack timestamp s
perform m (op_remove address) s = (m.remove address s).0
perform m (op_update_size address memsize) s = (m.update_size address memsize s).0

abbrev pub perform_all : (m : MappedStorage) → List Operation → m.Store → m.Store
perform_all m [] s = s
perform_all m (op ∷ ops) s = perform_all m ops (perform m op s)

abbrev pub request_of : Operation → NetRequest
request_of (op_add address memsize callstack timestamp) =
    net_request net_req_add address memsize timestamp callstack
request_of (op_remove address) = net_request net_req_remove address 0 (pos 0) []
request_of (op_update_size address memsize) =
    net_request net_req_update_size address memsize (pos 0) []

abbrev pub hello : ℕ → ℤ → NetRequest
hello pid now = net_request net_req_new_storage (pid % 2 ^ 32) 0 now []

length-map : (ops : List Operation) → length (map request_of ops) ≡ length ops
length-map [] = refl
length-map (op ∷ ops) = ap suc (length-map ops)

module _ (e : Bool) where
  sent :
      (op : Operation) (stream : List ℕ)
      → perform (network_storage e) op stream ≡ stream ++ frame e (request_of op)
  unfolding add remove update_size send
  sent (op_add _ _ _ _) stream = refl
  sent (op_remove _) stream = refl
  sent (op_update_size _ _) stream = refl

  all_sent :
      (ops : List Operation) (stream : List ℕ)
      → perform_all (network_storage e) ops stream ≡ stream ++ frames e (map request_of ops)
  all_sent [] stream = sym (append-nil stream)
  all_sent (op ∷ ops) stream =
      ap (perform_all (network_storage e) ops) (sent op stream)
      ∙ all_sent ops (stream ++ frame e (request_of op))
      ∙ append_assoc stream (frame e (request_of op)) (frames e (map request_of ops))

  module _ (m : MappedStorage) (new_storage : ℕ → m.Store) where
    handled-request :
        (op : Operation) (s : m.Store)
        → handle_net_request e m new_storage (request_of op) (some s)
          ≡ Handled.handled (some (perform m op s))
    unfolding handle_net_request net_request
    handled-request (op_add _ _ _ _) s = refl
    handled-request (op_remove _) s = refl
    handled-request (op_update_size _ _) s = refl

    all_handled :
        (ops : List Operation) (s : m.Store)
        → AllHandled e m new_storage (map request_of ops) (some s) (some (perform_all m ops s))
    all_handled [] s = refl
    all_handled (op ∷ ops) s =
        (some (perform m op s), handled-request op s, all_handled ops (perform m op s))

    hello_handled :
        (pid : ℕ) (now : ℤ)
        → handle_net_request e m new_storage (hello pid now) none
          ≡ Handled.handled (some (new_storage (pid % 2 ^ 32)))
    unfolding handle_net_request net_request
    hello_handled pid now = refl

    connected : (pid : ℕ) (now : ℤ) → connect e pid now ≡ frame e (hello pid now)
    unfolding connect send
    connected pid now = refl

    -- A client connects and then records, removes and resizes allocations. However the network cuts
    -- the bytes, once the first read has brought eight of them the server's session ends up with
    -- the storage that the same operations make of a new one for that process, and waits for the
    -- next header with an empty buffer; two calls of the parsers for each request are enough. Each
    -- request is to fit its representation and to take less than 2 ^ 63 bytes.
    pub serve-perform_all :
        (ops : List Operation) (pid : ℕ) (now : ℤ) (fuel : ℕ) (first rest : List ℕ)
        → 2 * suc (length ops) ≤ fuel
        → 8 ≤ length first
        → IsFramed e (hello pid now)
        → All (IsFramed e) (map request_of ops)
        → first ++ rest ≡ perform_all (network_storage e) ops (connect e pid now)
        → serve e m new_storage fuel Callback.parse_outbound_callback
            (record { sbuf = first; storage = none })
            rest
          ≡ Served.waiting 8 Callback.parse_outbound_callback
              (record {
                sbuf = [];
                storage = some (perform_all m ops (new_storage (pid % 2 ^ 32)));
              })
              []
    serve-perform_all ops pid now fuel first rest enough header hi ok eq =
        serve-frames e m new_storage (hello pid now ∷ map request_of ops) fuel none _ first rest
          (omega (arith, enough, length-map ops)) header (hi, ok)
          (some (new_storage (pid % 2 ^ 32)), hello_handled pid now, all_handled ops _)
          (eq
            ∙ all_sent ops (connect e pid now)
            ∙ ap (λ h. h ++ frames e (map request_of ops)) (connected pid now))
