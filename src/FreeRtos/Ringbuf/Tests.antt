-- ===== src/FreeRtos/Ringbuf/Tests.antt =====
-- Runs and instances on a buffer of two items.
use esp32emu.Base.{◌≤◌, ◌<◌, ◌≡◌, refl, true, false, List, [], ◌∷◌, ◌++◌, arith}
use esp32emu.Base.History.{run}
use esp32emu.FreeRtos.Ringbuf.{nosplit, Ringbuffer, x_ringbuffer_send}
use esp32emu.FreeRtos.Ringbuf.Space.{IsValid, ringbuffer_send_lem}
use esp32emu.FreeRtos.Ringbuf.Order.{Call, send, receive, step, waiting, byte_order}

abbrev two_items : Ringbuffer
two_items = record {
  rtype = nosplit;
  max_size = 8;
  used_bytes = 5;
  items = (1 ∷ 2 ∷ []) ∷ (3 ∷ 4 ∷ 5 ∷ []) ∷ [];
  byte_stream = [];
}

two_items-IsValid : IsValid two_items
two_items-IsValid = omega arith

abbrev script : List Call
script = send (6 ∷ 7 ∷ 8 ∷ 9 ∷ []) ∷ receive ∷ send (6 ∷ 7 ∷ 8 ∷ 9 ∷ []) ∷ receive ∷ []

-- The first send does not fit, the second does.
run-script : run step two_items script ≡ (
  record two_items { used_bytes = 4; items = (6 ∷ 7 ∷ 8 ∷ 9 ∷ []) ∷ [] },
  6 ∷ 7 ∷ 8 ∷ 9 ∷ [],
  1 ∷ 2 ∷ 3 ∷ 4 ∷ 5 ∷ [],
)
unfolding step
run-script = refl

ringbuffer_send_lem_example :
    let (rb', sent) = x_ringbuffer_send two_items (6 ∷ 7 ∷ []) in
    IsValid rb'
    × (2 ≤ 3 → (sent ≡ true) × (rb'.used_bytes ≡ 7))
    × (3 < 2 → (sent ≡ false) × (rb' ≡ two_items))
ringbuffer_send_lem_example =
    ringbuffer_send_lem two_items (6 ∷ 7 ∷ []) two_items-IsValid (omega arith)

byte_order_example :
    let (rb', put, got) = run step two_items script in got ++ waiting rb' ≡ waiting two_items ++ put
byte_order_example = byte_order script two_items refl
