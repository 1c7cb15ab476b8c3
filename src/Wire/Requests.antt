-- ===== src/Wire/Requests.antt =====
-- Requests and the frames in which src/memhookcore/network_mapped_storage.cpp sends them.
use memhook.Prelude.{
  ℕ, ◌+◌, ◌%◌, ◌^◌, ◌<◌, ◌≡◌, refl, ap, Bool, Option, some, ◌>>=◌, List, [], ◌∷◌, ◌++◌, map, length,
  arith, length-append,
}
use memhook.TraceInfo.{CallStackInfoItem}
use memhook.Wire.Types.{
  NetRequest, request_shape, outbound_shape, item_fields, fields_item, request_fields,
  fields_request, net_request,
}
use memhook.Wire.Codec.{write, get_size, read, Fits}
use memhook.Wire.RoundTrip.{length-write_word, read-write, size_of-length-write}

module _ (big_endian : Bool) where
  -- `serialization::Write` and `Read` of a request.
  unfoldable pub write_request : NetRequest → List ℕ
  write_request r = write big_endian request_shape (request_fields r)

  unfoldable pub read_request : List ℕ → Option (NetRequest × List ℕ)
  read_request buf = do
    (fields, rest) ← read big_endian request_shape buf
    some (fields_request fields, rest)

  -- The bytes that `Send` puts: a `NetProtoOutbound` with the request's size, and the request.
  unfoldable pub frame : NetRequest → List ℕ
  frame r =
      write big_endian outbound_shape (get_size request_shape (request_fields r)) ++ write_request r

  -- `buf_size`, the length of the buffer that `Send` prepares.
  unfoldable pub frame_size : NetRequest → ℕ
  frame_size r =
      let size = get_size request_shape (request_fields r) in
      (size + get_size outbound_shape size) % 2 ^ 64

abbrev pub IsSendable : NetRequest → Type 0
IsSendable r = Fits request_shape (request_fields r)

fields_item-item_fields :
    (items : List CallStackInfoItem) → map fields_item (map item_fields items) ≡ items
fields_item-item_fields [] = refl
fields_item-item_fields (i ∷ items) = ap (◌∷◌ i) (fields_item-item_fields items)

fields_request-request_fields : (r : NetRequest) → fields_request (request_fields r) ≡ r
unfolding net_request
fields_request-request_fields r =
    ap (λ items. record r { callstack = items }) (fields_item-item_fields r.callstack)

-- A request that fits its representation is read back as it was sent, and what follows it in the
-- buffer is left.
pub read_request-write_request :
    (e : Bool) (r : NetRequest) (rest : List ℕ)
    → IsSendable r
    → read_request e (write_request e r ++ rest) ≡ some (r, rest)
unfolding read_request write_request
read_request-write_request e r rest h =
    rw (read-write e request_shape (request_fields r) rest h, fields_request-request_fields r)

pub length-outbound : (e : Bool) (size : ℕ) → length (write e outbound_shape size) ≡ 8
unfolding write
length-outbound e size = length-write_word e 8 size

-- The buffer that `Send` prepares is filled to its last byte, as its assertion says, when the
-- request takes less than 2 ^ 63 bytes.
pub length-frame :
    (e : Bool) (r : NetRequest)
    → length (write_request e r) < 2 ^ 63
    → length (frame e r) ≡ frame_size e r
unfolding frame frame_size write_request get_size
length-frame e r h = omega (
  arith,
  size_of-length-write e request_shape (request_fields r) 0 (omega arith),
  length-append (write e outbound_shape (get_size request_shape (request_fields r)))
      (write e request_shape (request_fields r)),
  size_of-length-write e outbound_shape (get_size request_shape (request_fields r)) 0 (omega arith),
  length-outbound e (get_size request_shape (request_fields r)),
)
