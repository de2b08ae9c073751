-- ===== src/FreeRtos/StreamBuffer.antt =====
-- include/freertos/stream_buffer.h: the byte ring `StreamBuffer`, its FreeRTOS calls, and the message
-- buffer on top of it. The mutex makes each operation one step. A `size_t` is a number below 2 ^ 64.
pub mod Ring
pub mod Contents
pub mod Messages
mod Tests
use esp32emu.Base.{
  ℕ, zero, suc, ◌+◌, ◌-◌, ◌*◌, ◌/◌, ◌%◌, ◌^◌, Bool, true, List, [], ◌∷◌, ◌++◌, ltb, ◌==◌, u32,
  add_size, sub_size, if◌then◌else◌, get_or, set, take, replicate,
}

pub record StreamBuffer : Type 0 where
  pub buf : List ℕ
  pub capacity : ℕ
  pub head : ℕ
  pub count : ℕ

pub stream_buffer : ℕ → StreamBuffer
stream_buffer cap = record { buf = replicate cap 0; capacity = cap; head = 0; count = 0 }

-- `buf[(head + count + i) % capacity] = src[i]` for the rest of `src` from `i` on.
pub send_loop : List ℕ → ℕ → ℕ → ℕ → List ℕ → ℕ → List ℕ
send_loop buf capacity head count [] i = buf
send_loop buf capacity head count (x ∷ xs) i =
    send_loop (set buf (add_size (add_size head count) i % capacity) x) capacity head count xs
      (i + 1)

-- `src` is what `data` points at, `len` bytes.
pub send : StreamBuffer → List ℕ → ℕ → StreamBuffer × ℕ
send s src len =
    let avail = sub_size s.capacity s.count in
    let to_write = (if ltb len avail then len else avail) in
    (
      record s {
        buf = send_loop s.buf s.capacity s.head s.count (take to_write src) 0;
        count = add_size s.count to_write;
      },
      to_write,
    )

-- `dst[i] = buf[(head + i) % capacity]` for `n` rounds from `i` on.
pub receive_loop : List ℕ → ℕ → ℕ → ℕ → ℕ → List ℕ
receive_loop buf capacity head zero i = []
receive_loop buf capacity head (suc n) i =
    get_or buf (add_size head i % capacity) 0 ∷ receive_loop buf capacity head n (i + 1)

-- The bytes that go to `dst`; their number is the result.
pub receive : StreamBuffer → ℕ → StreamBuffer × List ℕ
receive s len =
    let to_read = (if ltb len s.count then len else s.count) in
    (
      record s { head = add_size s.head to_read % s.capacity; count = sub_size s.count to_read },
      receive_loop s.buf s.capacity s.head to_read 0,
    )

pub bytes_available : StreamBuffer → ℕ
bytes_available s = s.count

pub spaces_available : StreamBuffer → ℕ
spaces_available s = sub_size s.capacity s.count

pub is_empty : StreamBuffer → Bool
is_empty s = s.count == 0

pub is_full : StreamBuffer → Bool
is_full s = s.count == s.capacity

pub reset : StreamBuffer → StreamBuffer
reset s = record s { head = 0; count = 0 }

-- The FreeRTOS calls pass on to these.
pub x_stream_buffer_create : ℕ → ℕ → StreamBuffer
unfolding stream_buffer
x_stream_buffer_create size trigger_level = stream_buffer size

pub x_stream_buffer_send : StreamBuffer → List ℕ → ℕ → StreamBuffer × ℕ
unfolding send
x_stream_buffer_send s tx_data length_bytes = send s tx_data length_bytes

pub x_stream_buffer_receive : StreamBuffer → ℕ → StreamBuffer × List ℕ
unfolding receive
x_stream_buffer_receive s buffer_length = receive s buffer_length

pub x_stream_buffer_is_empty : StreamBuffer → ℕ
unfolding is_empty
x_stream_buffer_is_empty s = if is_empty s then 1 else 0

pub x_stream_buffer_is_full : StreamBuffer → ℕ
unfolding is_full
x_stream_buffer_is_full s = if is_full s then 1 else 0

pub x_stream_buffer_reset : StreamBuffer → StreamBuffer × ℕ
unfolding reset
x_stream_buffer_reset s = (reset s, 1)

-- The four bytes of a `uint32_t` in memory, lowest first, and back.
abbrev pub bytes_of_u32 : ℕ → List ℕ
bytes_of_u32 n = n % 256 ∷ n / 256 % 256 ∷ n / 65536 % 256 ∷ n / 16777216 % 256 ∷ []

-- `receive(&len, 4)` over `len = 0`: bytes that were not received stay 0.
abbrev pub u32_of_bytes : List ℕ → ℕ
u32_of_bytes bs =
    get_or bs 0 0 + get_or bs 1 0 * 256 + get_or bs 2 0 * 65536 + get_or bs 3 0 * 16777216

pub x_message_buffer_create : ℕ → StreamBuffer
unfolding x_stream_buffer_create
x_message_buffer_create size = x_stream_buffer_create size 1

pub x_message_buffer_send : StreamBuffer → List ℕ → ℕ → StreamBuffer × ℕ
x_message_buffer_send s tx_data length_bytes =
    if ltb (spaces_available s) (add_size length_bytes 4)
    then (s, 0)
    else (let (s', n) = send s (bytes_of_u32 (u32 length_bytes)) 4 in
        let (s'', k) = send s' tx_data length_bytes in (s'', length_bytes))

-- The length is taken out before it is compared with the buffer's.
pub x_message_buffer_receive : StreamBuffer → ℕ → StreamBuffer × List ℕ
x_message_buffer_receive s buffer_length =
    if ltb (bytes_available s) 4
    then (s, [])
    else (let (s', prefix) = receive s 4 in
        let len = u32_of_bytes prefix in if ltb buffer_length len then (s', []) else receive s' len)
