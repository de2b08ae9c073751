-- ===== src/FreeRtos/Queue.antt =====
-- include/freertos/queue.h. An item is the list of its bytes. A blocked call releases the mutex:
-- what the other tasks do to the queue until the wait ends is the argument `others`, a function of
-- the milliseconds that the caller is ready to wait.
pub mod Blocking
pub mod Order
mod Tests
use esp32emu.Base.{
  ℕ, ◌*◌, ◌+◌, Bool, true, false, not, List, [], ◌∷◌, ◌++◌, Option, none, some, ltb, leb, ◌==◌, u32,
  sub_size, if◌then◌else◌, length, take,
}

-- `QueueData`; the mutex and the condition variables are in the shape of the operations.
pub record QueueData : Type 0 where
  pub item_size : ℕ
  pub max_length : ℕ
  pub items : List (List ℕ)

-- `pdPASS` and `pdFAIL`
abbrev pub pd_pass : Bool
pd_pass = true

abbrev pub pd_fail : Bool
pd_fail = false

abbrev pub port_max_delay : ℕ
port_max_delay = 0xFFFFFFFF

-- The limit of a wait, in milliseconds: `portMAX_DELAY` is one minute, and a tick is a millisecond.
abbrev pub timeout : ℕ → ℕ
timeout ticks = if ticks == port_max_delay then 60000 else u32 (ticks * 1)

abbrev pub Others : Type 0
Others = ℕ → QueueData → QueueData

pub x_queue_create : ℕ → ℕ → QueueData
x_queue_create queue_length item_size = record {
  item_size = item_size;
  max_length = queue_length;
  items = [];
}

abbrev pub is_full : QueueData → Bool
is_full q = leb q.max_length (length q.items)

pub is_empty : List (List ℕ) → Bool
is_empty [] = true
is_empty (x ∷ xs) = false

-- `memcpy` of `itemSize` bytes into a fresh item, and `push_back`.
push_back : QueueData → List ℕ → QueueData
push_back q source = record q { items = q.items ++ take q.item_size source ∷ [] }

push_front : QueueData → List ℕ → QueueData
push_front q source = record q { items = take q.item_size source ∷ q.items }

pub x_queue_send : Others → QueueData → List ℕ → ℕ → QueueData × Bool
unfolding push_back
x_queue_send others q source ticks =
    if is_full q
    then if ticks == 0
      then (q, pd_fail)
      else (let q' = others (timeout ticks) q in
          if ltb (length q'.items) q'.max_length
          then (push_back q' source, pd_pass)
          else (q', pd_fail))
    else (push_back q source, pd_pass)

pub x_queue_send_to_back : Others → QueueData → List ℕ → ℕ → QueueData × Bool
unfolding x_queue_send
x_queue_send_to_back others q source ticks = x_queue_send others q source ticks

pub x_queue_send_to_front : Others → QueueData → List ℕ → ℕ → QueueData × Bool
unfolding push_front
x_queue_send_to_front others q source ticks =
    if is_full q
    then if ticks == 0
      then (q, pd_fail)
      else (let q' = others (timeout ticks) q in
          if ltb (length q'.items) q'.max_length
          then (push_front q' source, pd_pass)
          else (q', pd_fail))
    else (push_front q source, pd_pass)

-- Copies out the front item and pops it; nothing is popped of an empty queue.
pub pop_front : QueueData → List (List ℕ) → QueueData × Option (List ℕ)
pop_front q [] = (q, none)
pop_front q (x ∷ rest) = (record q { items = rest }, some (take q.item_size x))

pub peek_front : QueueData → List (List ℕ) → QueueData × Option (List ℕ)
peek_front q [] = (q, none)
peek_front q (x ∷ rest) = (q, some (take q.item_size x))

-- `some` holds the bytes that go to `pvBuffer` (pdPASS), `none` is pdFAIL.
pub x_queue_receive : Others → QueueData → ℕ → QueueData × Option (List ℕ)
unfolding pop_front is_empty
x_queue_receive others q ticks =
    if is_empty q.items
    then if ticks == 0
      then (q, none)
      else (let q' = others (timeout ticks) q in
          if not (is_empty q'.items) then pop_front q' q'.items else (q', none))
    else pop_front q q.items

pub x_queue_peek : Others → QueueData → ℕ → QueueData × Option (List ℕ)
unfolding peek_front is_empty
x_queue_peek others q ticks =
    if is_empty q.items
    then if ticks == 0
      then (q, none)
      else (let q' = others (timeout ticks) q in
          if not (is_empty q'.items) then peek_front q' q'.items else (q', none))
    else peek_front q q.items

-- `(UBaseType_t)`: 32 bits.
pub ux_queue_messages_waiting : QueueData → ℕ
ux_queue_messages_waiting q = u32 (length q.items)

pub ux_queue_spaces_available : QueueData → ℕ
ux_queue_spaces_available q = u32 (sub_size q.max_length (length q.items))

pub x_queue_reset : QueueData → QueueData × Bool
x_queue_reset q = (record q { items = [] }, pd_pass)

-- With no tick to wait for, the other tasks have no turn.
abbrev pub alone : Others
alone ms q = q

pub x_queue_send_from_isr : QueueData → List ℕ → QueueData × Bool
unfolding x_queue_send
x_queue_send_from_isr q source = x_queue_send alone q source 0

pub x_queue_receive_from_isr : QueueData → QueueData × Option (List ℕ)
unfolding x_queue_receive
x_queue_receive_from_isr q = x_queue_receive alone q 0
