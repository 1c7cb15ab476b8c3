-- ===== src/Examples/Codecs.antt =====
-- Requests and words on the wire.
use memhook.Prelude.{negsuc, ◌≡◌, refl, true, false, none, some, [], ◌∷◌, ◌++◌, arith}
use memhook.Wire.Types.{Shape, NetRequest, net_req_add}
use memhook.Wire.Bytes.{to_le, object_bytes, hton}
use memhook.Wire.Codec.{write, write_word, read}
use memhook.Wire.Truncation.{read_truncated}
use memhook.Wire.Requests.{write_request, read_request, IsSendable, read_request-write_request}
use memhook.Examples.{frame_at}

abbrev request : NetRequest
request = record {
  type = net_req_add;
  traceinfo = record { address = 16; memsize = 8; timestamp = negsuc 0 };
  callstack = frame_at 4100 ∷ [];
}

request-IsSendable : IsSendable request
request-IsSendable = ground arith

read_request-write_request_example :
    read_request false (write_request false request ++ (1 ∷ 2 ∷ [])) ≡ some (request, 1 ∷ 2 ∷ [])
read_request-write_request_example =
    read_request-write_request false request (1 ∷ 2 ∷ []) request-IsSendable

read_truncated_example : read true Shape.enum (0 ∷ 0 ∷ 1 ∷ []) ≡ none
unfolding write write_word object_bytes hton to_le
read_truncated_example = read_truncated true Shape.enum 258 (0 ∷ 0 ∷ 1 ∷ []) 2 [] (omega arith) refl
