-- ===== src/FreeRtos/StreamBuffer/Tests.antt =====
-- Runs and instances on a buffer of ten bytes whose contents go round the end.
use esp32emu.Base.{◌≤◌, ◌<◌, ◌≡◌, refl, [], ◌∷◌, ◌++◌, arith, length, take}
use esp32emu.FreeRtos.StreamBuffer.{
  StreamBuffer, send, receive, bytes_available, x_message_buffer_send, x_message_buffer_receive,
  receive_loop,
}
use esp32emu.FreeRtos.StreamBuffer.Contents.{IsValid, contents, send_lem, receive_lem}
use esp32emu.FreeRtos.StreamBuffer.Messages.{Holds, message_receive_lem, message_send_lem}

abbrev wrapped : StreamBuffer
wrapped = record {
  buf = 8 ∷ 9 ∷ 0 ∷ 0 ∷ 0 ∷ 0 ∷ 2 ∷ 0 ∷ 0 ∷ 0 ∷ [];
  capacity = 10;
  head = 6;
  count = 6;
}

wrapped-IsValid : IsValid wrapped
wrapped-IsValid = omega arith

-- One message of two bytes.
wrapped-Holds : Holds wrapped ((8 ∷ 9 ∷ []) ∷ [])
wrapped-Holds = record { valid = wrapped-IsValid; encoded = refl }

received : (x_message_buffer_receive wrapped 5).1 ≡ 8 ∷ 9 ∷ []
unfolding x_message_buffer_receive receive receive_loop bytes_available
received = refl

send_lem_example :
    let (s', n) = send wrapped (5 ∷ 6 ∷ 7 ∷ []) 3 in
    (n ≡ 3) × (contents s' ≡ contents wrapped ++ take n (5 ∷ 6 ∷ 7 ∷ [])) × IsValid s'
send_lem_example = send_lem wrapped (5 ∷ 6 ∷ 7 ∷ []) 3 wrapped-IsValid (omega arith)

receive_lem_example :
    let (s', out) = receive wrapped 4 in
    (length out ≡ 4) × (contents wrapped ≡ out ++ contents s') × IsValid s'
receive_lem_example = receive_lem wrapped 4 wrapped-IsValid

message_receive_lem_example :
    let (s', out) = x_message_buffer_receive wrapped 5 in (out ≡ 8 ∷ 9 ∷ []) × Holds s' []
message_receive_lem_example =
    message_receive_lem wrapped (8 ∷ 9 ∷ []) [] 5 wrapped-Holds (omega arith) (omega arith)

message_send_lem_example :
    let (s', n) = x_message_buffer_send wrapped [] 0 in
    (4 ≤ 4 → (n ≡ 0) × Holds s' ((8 ∷ 9 ∷ []) ∷ [] ∷ [])) × (4 < 4 → (n ≡ 0) × (s' ≡ wrapped))
message_send_lem_example =
    message_send_lem wrapped [] ((8 ∷ 9 ∷ []) ∷ []) wrapped-Holds (omega arith)
