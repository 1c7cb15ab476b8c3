-- ===== src/Examples/Sessions.antt =====
-- A client and a session in the example world.
use memhook.Prelude.{
  ℕ, pos, ◌≤◌, ◌≡◌, refl, true, none, some, List, [], ◌∷◌, arith, take, drop, length, map, All,
  take-append-drop,
}
use memhook.Storage.Mapped.{Container}
use memhook.Storage.Network.{connect, network_storage, send, add, remove, update_size}
use memhook.Wire.Types.{net_request}
use memhook.Wire.Bytes.{to_le, object_bytes, hton}
use memhook.Wire.Codec.{write, write_word, word_of_int, get_size, size_of}
use memhook.Wire.Requests.{frame, write_request}
use memhook.Session.{Callback, Served, serve, handle_net_request}
use memhook.Session.Serve.{IsFramed, frames, serve-frames}
use memhook.Session.Client.{Operation, perform_all, request_of, hello, serve-perform_all}
use memhook.Examples.{traces, segment, empty_container, frame_at}

abbrev new_storage : ℕ → Container traces
new_storage pid = empty_container

abbrev operations : List Operation
operations =
    Operation.op_add 16 8 (frame_at 4100 ∷ []) (pos 1)
    ∷ Operation.op_update_size 16 9
    ∷ Operation.op_remove 16
    ∷ []

abbrev stream : List ℕ
stream = perform_all (network_storage true) operations (connect true 77 (pos 0))

header_arrives : 8 ≤ length (take 10 stream)
unfolding connect send add remove update_size frame write_request write write_word word_of_int
    get_size size_of object_bytes hton to_le net_request
header_arrives = omega arith

hello-IsFramed : IsFramed true (hello 77 (pos 0))
unfolding write_request write write_word word_of_int object_bytes hton to_le net_request
hello-IsFramed = ground arith

operations-IsFramed : All (IsFramed true) (map request_of operations)
unfolding write_request write write_word word_of_int object_bytes hton to_le net_request
operations-IsFramed = ground arith

serve-perform_all_example :
    serve true segment new_storage 8 Callback.parse_outbound_callback
      (record { sbuf = take 10 stream; storage = none })
      (drop 10 stream)
    ≡ Served.waiting 8 Callback.parse_outbound_callback
        (record { sbuf = []; storage = some (perform_all segment operations empty_container) })
        []
serve-perform_all_example =
    serve-perform_all true segment new_storage operations 77 (pos 0) 8 (take 10 stream)
      (drop 10 stream) (omega arith) header_arrives hello-IsFramed operations-IsFramed
      (take-append-drop 10 stream)

serve-frames_example :
    serve true segment new_storage 2 Callback.parse_outbound_callback
      (record { sbuf = take 10 (frames true (hello 77 (pos 0) ∷ [])); storage = none })
      (drop 10 (frames true (hello 77 (pos 0) ∷ [])))
    ≡ Served.waiting 8 Callback.parse_outbound_callback
        (record { sbuf = []; storage = some empty_container })
        []
unfolding connect send frame write_request write write_word word_of_int get_size size_of
    object_bytes hton to_le net_request handle_net_request
serve-frames_example =
    serve-frames true segment new_storage (hello 77 (pos 0) ∷ []) 2 none (some empty_container)
      (take 10 (frames true (hello 77 (pos 0) ∷ [])))
      (drop 10 (frames true (hello 77 (pos 0) ∷ []))) (omega arith) (omega arith)
      (hello-IsFramed, tt) (some empty_container, refl, refl)
      (take-append-drop 10 (frames true (hello 77 (pos 0) ∷ [])))
