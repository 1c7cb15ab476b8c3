-- ===== src/Session.antt =====
-- `MemDBSession` of src/memdb/memdb_session.cpp: the server's side of a connection. What
-- boost::asio does is written out as far as the code relies on it: `async_read` with
-- `transfer_exactly(n)` calls back when n further bytes have come, and has then put exactly these
-- into `sbuf_`.
pub mod Serve
pub mod Client
use memhook.Prelude.{
  ℕ, ℤ, zero, suc, ◌-◌, ◌==◌, Bool, true, false, Option, none, some, List, ◌++◌, length, take, drop,
  ltb, if◌then◌else◌,
}
use memhook.Storage.{MappedStorage}
use memhook.Wire.Types.{
  NetRequest, outbound_shape, net_req_add, net_req_remove, net_req_update_size, net_req_new_storage,
}
use memhook.Wire.Codec.{read}
use memhook.Wire.Requests.{read_request}

-- `sizeof(NetProtoOutbound)`
abbrev pub outbound_size : ℕ
outbound_size = 8

-- The two members that parse.
pub data Callback : Type 0 where
  parse_outbound_callback : Callback
  parse_inbound_callback : Callback

-- What a call of one comes to: `ParsingInfo(size, callback)`, a tail call of a parser,
-- `ParsingInfo(0, NULL)`, or a read past the buffer or through the null `storage_`.
pub data Parsed : Type 0 where
  parsing_info : ℕ → Callback → Parsed
  tail_call : Callback → Parsed
  close : Parsed
  undefined : Parsed

-- What `HandleNetRequest` comes to, with `storage_` after it where it is true.
pub data Handled (S : Type 0) : Type 0 where
  handled : S → Handled S
  refused : Handled S
  null_storage : Handled S

module _ (big_endian : Bool) (m : MappedStorage) (new_storage : ℕ → m.Store) where
  pub record Session : Type 0 where
    pub sbuf : List ℕ
    pub storage : Option m.Store

  abbrev pub with_storage : (m.Store → m.Store) → Option m.Store → Handled (Option m.Store)
  with_storage f none = null_storage
  with_storage f (some s) = handled (some (f s))

  -- `HandleNetRequest`, with `OnAdd`, `OnRemove`, `OnUpdateSize` and `OnNewStorage`.
  unfoldable pub handle_net_request : NetRequest → Option m.Store → Handled (Option m.Store)
  handle_net_request r storage =
      if r.type == net_req_add
      then with_storage
          (m.add r.traceinfo.address r.traceinfo.memsize r.callstack r.traceinfo.timestamp) storage
      else if r.type == net_req_remove
      then with_storage (λ s. (m.remove r.traceinfo.address s).0) storage
      else if r.type == net_req_update_size
      then with_storage (λ s. (m.update_size r.traceinfo.address r.traceinfo.memsize s).0) storage
      else if r.type == net_req_new_storage
      then handled (some (new_storage r.traceinfo.address))
      else refused

  -- The tests that end the parsers: ask for the missing bytes, or go on at once.
  abbrev pub await : ℕ → Callback → Session → Parsed × Session
  await need callback s =
      if ltb (length s.sbuf) need
      then (parsing_info (need - length s.sbuf) callback, s)
      else (tail_call callback, s)

  unfoldable pub parse_outbound : Session → Parsed × Session
  parse_outbound s =
      if ltb (length s.sbuf) outbound_size
      then (parsing_info (outbound_size - length s.sbuf) parse_outbound_callback, s)
      else (elim (read big_endian outbound_shape s.sbuf) [
        | none ↦ (undefined, s)
        | some (size, rest) ↦ await size parse_inbound_callback (record s { sbuf = rest })
      ])

  abbrev pub after_request : Handled (Option m.Store) → List ℕ → Session → Parsed × Session
  after_request (handled storage) rest s =
      await outbound_size parse_outbound_callback (record { sbuf = rest; storage = storage })
  after_request refused rest s = (close, s)
  after_request null_storage rest s = (undefined, s)

  abbrev pub after_read : Option (NetRequest × List ℕ) → Session → Parsed × Session
  after_read none s = (undefined, s)
  after_read (some (request, rest)) s = after_request (handle_net_request request s.storage) rest s

  unfoldable pub parse_inbound : Session → Parsed × Session
  parse_inbound s = after_read (read_request big_endian s.sbuf) s

  abbrev pub parse : Callback → Session → Parsed × Session
  parse parse_outbound_callback s = parse_outbound s
  parse parse_inbound_callback s = parse_inbound s

  -- How a run on a stream of bytes ends: waiting for more, with the bytes that are left; closed; in
  -- undefined behaviour; or at the end of the fuel.
  pub data Served : Type 0 where
    waiting : ℕ → Callback → Session → List ℕ → Served
    closed : Session → Served
    broken : Served
    unfinished : Served

  -- `OnReadComplete` behind the call of its callback, and the read that it starts.
  abbrev pub resume : (Callback → Session → List ℕ → Served) → Parsed × Session → List ℕ → Served
  resume go (parsing_info size callback, s) stream =
      if ltb (length stream) size
      then waiting size callback s stream
      else go callback (record s { sbuf = s.sbuf ++ take size stream }) (drop size stream)
  resume go (tail_call callback, s) stream = go callback s stream
  resume go (close, s) stream = closed s
  resume go (undefined, s) stream = broken

  -- A round of fuel for each call of a parser; `stream` is what the client sent and is not read
  -- yet.
  unfoldable pub serve : ℕ → Callback → Session → List ℕ → Served
  serve zero callback s stream = unfinished
  serve (suc fuel) callback s stream = resume (serve fuel) (parse callback s) stream
