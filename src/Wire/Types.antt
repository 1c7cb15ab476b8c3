-- ===== src/Wire/Types.antt =====
-- What is sent: `NetProtoOutbound` and `NetRequest` of include/memhook/network.h, and the shapes
-- that the templates of serialization.h walk over.
use memhook.Prelude.{ℕ, ℤ, List, map}
use memhook.TraceInfo.{TraceInfoBase, CallStackInfoItem, CallStackInfo}

-- `NetReqType`: a value that came from the wire need not be one of the named ones.
abbrev pub NetReqType : Type 0
NetReqType = ℕ

abbrev pub net_req_unknown : NetReqType
net_req_unknown = 0

abbrev pub net_req_add : NetReqType
net_req_add = 0xfd1a73e7

abbrev pub net_req_remove : NetReqType
net_req_remove = 0x68801d30

abbrev pub net_req_update_size : NetReqType
net_req_update_size = 0x23ac73f5

abbrev pub net_req_clear : NetReqType
net_req_clear = 0xe5b1f106

abbrev pub net_req_new_storage : NetReqType
net_req_new_storage = 0x8f3948da

pub record NetRequest : Type 0 where
  pub type : NetReqType
  pub traceinfo : TraceInfoBase
  pub callstack : CallStackInfo

-- The constructor of `NetRequest`, whose arguments behind the type have defaults.
unfoldable pub net_request : NetReqType → ℕ → ℕ → ℤ → CallStackInfo → NetRequest
net_request type address memsize timestamp callstack = record {
  type = type;
  traceinfo = record { address = address; memsize = memsize; timestamp = timestamp };
  callstack = callstack;
}

-- The types that `WriterImpl` and `ReaderImpl` distinguish. A structure is its fields in order.
pub data Shape : Type 0 where
  word : ℕ → Shape
  enum : Shape
  time_point : Shape
  text : Shape
  seq : Shape → Shape
  both : Shape → Shape → Shape

abbrev pub Value : Shape → Type 0
Value (word w) = ℕ
Value enum = ℕ
Value time_point = ℤ
Value text = List ℕ
Value (seq s) = List (Value s)
Value (both s t) = Value s × Value t

-- The field lists that `BOOST_FUSION_ADAPT_STRUCT` registers.
abbrev pub traceinfo_shape : Shape
traceinfo_shape = both (word 8) (both (word 8) time_point)

abbrev pub item_shape : Shape
item_shape = both text (both text (both (word 8) (both (word 8) (both (word 8) (word 8)))))

abbrev pub request_shape : Shape
request_shape = both enum (both traceinfo_shape (seq item_shape))

abbrev pub outbound_shape : Shape
outbound_shape = word 8

abbrev pub item_fields : CallStackInfoItem → Value item_shape
item_fields i = (i.shl_path, (i.procname, (i.shl_addr, (i.ip, (i.sp, i.offp)))))

abbrev pub fields_item : Value item_shape → CallStackInfoItem
fields_item (path, (name, (addr, (ip, (sp, offp))))) = record {
  shl_path = path;
  procname = name;
  shl_addr = addr;
  ip = ip;
  sp = sp;
  offp = offp;
}

abbrev pub request_fields : NetRequest → Value request_shape
request_fields r = (
  r.type,
  (
    (r.traceinfo.address, (r.traceinfo.memsize, r.traceinfo.timestamp)),
    map item_fields r.callstack,
  ),
)

abbrev pub fields_request : Value request_shape → NetRequest
fields_request (type, ((address, (memsize, timestamp)), callstack)) =
    net_request type address memsize timestamp (map fields_item callstack)
