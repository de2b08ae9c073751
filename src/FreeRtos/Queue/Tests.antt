-- ===== src/FreeRtos/Queue/Tests.antt =====
-- Runs and instances of the queue's theorems on a queue of two items of two bytes.
use esp32emu.Base.{false, ℕ, ◌≡◌, refl, true, List, [], ◌∷◌, ◌++◌, arith}
use esp32emu.FreeRtos.Queue.{
  QueueData, Others, is_empty, x_queue_send, x_queue_send_to_front, x_queue_receive, x_queue_peek,
  pop_front,
}
use esp32emu.FreeRtos.Queue.Blocking.{
  moment, Put, HandedOut, behind, ahead, dropped, kept, IsValid, Respects, sends-IsValid,
  blocked_calls, pop_front-IsValid,
}
use esp32emu.Base.History.{run}
use esp32emu.FreeRtos.Queue.Order.{Turn, send, receive, peek, step, fifo}

abbrev two_full : QueueData
two_full = record { item_size = 2; max_length = 2; items = (1 ∷ 2 ∷ []) ∷ (3 ∷ 4 ∷ []) ∷ [] }

abbrev two_empty : QueueData
two_empty = record { item_size = 2; max_length = 2; items = [] }

two_full-IsValid : IsValid two_full
two_full-IsValid = record { bounded = omega arith; sized = (refl, (refl, tt)) }

-- Another task takes the front item while the caller waits.
abbrev reader : Others
reader ms q = (pop_front q q.items).0

same_size-pop : (q : QueueData) (xs : List (List ℕ)) → (pop_front q xs).0.item_size ≡ q.item_size
unfolding pop_front
same_size-pop q [] = refl
same_size-pop q (x ∷ xs) = refl

reader-Respects : Respects reader
reader-Respects = record {
  valid = λ ms q v. pop_front-IsValid q v q.items refl;
  same_size = λ ms q. same_size-pop q q.items;
}

full_then_served :
    x_queue_send reader two_full (5 ∷ 6 ∷ []) 10
    ≡ (record two_full { items = (3 ∷ 4 ∷ []) ∷ (5 ∷ 6 ∷ []) ∷ [] }, true)
unfolding x_queue_send pop_front
full_then_served = refl

sends-IsValid_example :
    IsValid (x_queue_send reader two_full (5 ∷ 6 ∷ []) 10).0
    × IsValid (x_queue_send_to_front reader two_full (5 ∷ 6 ∷ []) 10).0
sends-IsValid_example =
    sends-IsValid reader reader-Respects two_full two_full-IsValid (5 ∷ 6 ∷ []) 10 (omega arith)

blocked_calls_example :
    let room = moment reader two_full true 10 in
    let filled = moment reader two_full false 10 in
    Put behind room (5 ∷ 6 ∷ []) (x_queue_send reader two_full (5 ∷ 6 ∷ []) 10)
    × Put ahead room (5 ∷ 6 ∷ []) (x_queue_send_to_front reader two_full (5 ∷ 6 ∷ []) 10)
    × HandedOut dropped filled (x_queue_receive reader two_full 10)
    × HandedOut kept filled (x_queue_peek reader two_full 10)
unfolding is_empty
blocked_calls_example = blocked_calls reader two_full (5 ∷ 6 ∷ []) 10

abbrev script : List Turn
script =
    record { call = send (7 ∷ 8 ∷ []); ticks = 10; meanwhile = receive ∷ [] }
    ∷ record { call = receive; ticks = 0; meanwhile = [] }
    ∷ record { call = receive; ticks = 0; meanwhile = [] }
    ∷ record { call = peek; ticks = 5; meanwhile = send (9 ∷ 9 ∷ []) ∷ [] }
    ∷ []

run-script : run step two_full script ≡ (
  record two_full { items = (9 ∷ 9 ∷ []) ∷ [] },
  (7 ∷ 8 ∷ []) ∷ (9 ∷ 9 ∷ []) ∷ [],
  (1 ∷ 2 ∷ []) ∷ (3 ∷ 4 ∷ []) ∷ (7 ∷ 8 ∷ []) ∷ [],
)
unfolding step
run-script = refl

fifo_example :
    let (q', put, got) = run step two_full script in got ++ q'.items ≡ two_full.items ++ put
fifo_example =
    fifo 2 script two_full (record { valid = two_full-IsValid; size_is = refl }) (omega arith)
