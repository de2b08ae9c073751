-- ===== src/FreeRtos/Ringbuf.antt =====
-- include/freertos/ringbuf.h: items, or a stream of bytes, within a number of bytes. The mutex makes
-- each call one step. A received item is the list of its bytes; `some n` with n bytes sent is pdTRUE.
pub mod Space
pub mod Order
mod Tests
use esp32emu.Base.{
  ℕ, Bool, true, false, List, [], ◌∷◌, ◌++◌, Option, none, some, ltb, add_size, sub_size,
  if◌then◌else◌, length,
}

-- `RingbufferType_t`
pub data RingbufferType : Type 0 where
  nosplit allowsplit bytebuf : RingbufferType

-- `Ringbuffer`; the items of the `std::queue`, front first.
pub record Ringbuffer : Type 0 where
  pub rtype : RingbufferType
  pub max_size : ℕ
  pub used_bytes : ℕ
  pub items : List (List ℕ)
  pub byte_stream : List ℕ

pub x_ringbuffer_create : ℕ → RingbufferType → Ringbuffer
x_ringbuffer_create buf_size t = record {
  rtype = t;
  max_size = buf_size;
  used_bytes = 0;
  items = [];
  byte_stream = [];
}

store : RingbufferType → Ringbuffer → List ℕ → Ringbuffer
store bytebuf rb source = record rb { byte_stream = rb.byte_stream ++ source }
store nosplit rb source = record rb { items = rb.items ++ source ∷ [] }
store allowsplit rb source = record rb { items = rb.items ++ source ∷ [] }

-- `source` is what `data` points at, all `len` bytes of it; true is pdTRUE.
pub x_ringbuffer_send : Ringbuffer → List ℕ → Ringbuffer × Bool
unfolding store
x_ringbuffer_send rb source =
    let len = length source in
    if ltb rb.max_size (add_size rb.used_bytes len)
    then (rb, false)
    else (record (store rb.rtype rb source) { used_bytes = add_size rb.used_bytes len }, true)

receive_stream : Ringbuffer → List ℕ → Ringbuffer × Option (List ℕ)
receive_stream rb [] = (rb, none)
receive_stream rb (x ∷ xs) = (
  record rb { byte_stream = []; used_bytes = sub_size rb.used_bytes (length (x ∷ xs)) },
  some (x ∷ xs),
)

receive_item : Ringbuffer → List (List ℕ) → Ringbuffer × Option (List ℕ)
receive_item rb [] = (rb, none)
receive_item rb (front ∷ rest) =
    (record rb { items = rest; used_bytes = sub_size rb.used_bytes (length front) }, some front)

receive_by : RingbufferType → Ringbuffer → Ringbuffer × Option (List ℕ)
unfolding receive_stream receive_item
receive_by bytebuf rb = receive_stream rb rb.byte_stream
receive_by nosplit rb = receive_item rb rb.items
receive_by allowsplit rb = receive_item rb rb.items

-- The copy that is handed to the caller, `none` for a null pointer.
pub x_ringbuffer_receive : Ringbuffer → Ringbuffer × Option (List ℕ)
unfolding receive_by
x_ringbuffer_receive rb = receive_by rb.rtype rb

pub x_ringbuffer_get_cur_free_size : Ringbuffer → ℕ
x_ringbuffer_get_cur_free_size rb = sub_size rb.max_size rb.used_bytes

pub x_ringbuffer_create_static : ℕ → RingbufferType → Ringbuffer
unfolding x_ringbuffer_create
x_ringbuffer_create_static buf_size t = x_ringbuffer_create buf_size t
