-- ===== src/FreeRtos/Ringbuf/Space.antt =====
-- The count of used bytes is exact, so a ring buffer never overflows; and it keeps the order.
use esp32emu.Base.{
  ℕ, ◌+◌, ◌-◌, ◌^◌, ◌≤◌, ◌<◌, ◌≡◌, refl, ap, true, false, List, [], ◌∷◌, ◌++◌, arith, length,
  length-append,
}
use esp32emu.FreeRtos.Ringbuf.{
  RingbufferType, nosplit, allowsplit, bytebuf, Ringbuffer, x_ringbuffer_send, x_ringbuffer_receive,
  x_ringbuffer_get_cur_free_size, receive_item, receive_stream, receive_by, store,
}

-- The bytes of all items.
abbrev pub total : List (List ℕ) → ℕ
total [] = 0
total (x ∷ xs) = length x + total xs

pub record IsValid (rb : Ringbuffer) : Type 0 where
  pub exact : rb.used_bytes ≡ total rb.items + length rb.byte_stream
  pub within : rb.used_bytes ≤ rb.max_size
  pub small : rb.max_size ≤ 2 ^ 63

total-append : (xs ys : List (List ℕ)) → total (xs ++ ys) ≡ total xs + total ys
total-append [] ys = omega arith
total-append (x ∷ xs) ys = omega (arith, total-append xs ys)

store-total :
    (t : RingbufferType) (rb : Ringbuffer) (source : List ℕ)
    → let rb' = store t rb source in
      total rb'.items + length rb'.byte_stream
      ≡ total rb.items + length rb.byte_stream + length source
unfolding store
store-total bytebuf rb source = omega (arith, length-append rb.byte_stream source)
store-total nosplit rb source = omega (arith, total-append rb.items (source ∷ []))
store-total allowsplit rb source = omega (arith, total-append rb.items (source ∷ []))

max_size-store :
    (t : RingbufferType) (rb : Ringbuffer) (source : List ℕ)
    → (store t rb source).max_size ≡ rb.max_size
unfolding store
max_size-store bytebuf rb source = refl
max_size-store nosplit rb source = refl
max_size-store allowsplit rb source = refl

-- A send of fewer than 2 ^ 63 bytes succeeds exactly if they fit the free space, and keeps the count
-- of used bytes exact and within the size; if it fails nothing changes.
pub ringbuffer_send_lem :
    (rb : Ringbuffer) (source : List ℕ)
    → IsValid rb
    → length source < 2 ^ 63
    → let (rb', sent) = x_ringbuffer_send rb source in
      IsValid rb'
      × (length source ≤ rb.max_size - rb.used_bytes
          → (sent ≡ true) × (rb'.used_bytes ≡ rb.used_bytes + length source))
      × (rb.max_size - rb.used_bytes < length source → (sent ≡ false) × (rb' ≡ rb))
unfolding x_ringbuffer_send
ringbuffer_send_lem rb source v h = (
  record {
    exact = ground (arith, v.exact, v.within, v.small, store-total rb.rtype rb source);
    within = ground (arith, v.within, v.small, max_size-store rb.rtype rb source);
    small = ground (arith, v.small, max_size-store rb.rtype rb source);
  },
  λ fits. ground (arith, v.within, v.small),
  λ over. ground (arith, v.within, v.small),
)

receive_item-IsValid :
    (rb : Ringbuffer) (xs : List (List ℕ))
    → rb.items ≡ xs
    → IsValid rb
    → IsValid (receive_item rb xs).0
unfolding receive_item
receive_item-IsValid rb [] e v = v
receive_item-IsValid rb (x ∷ xs) e v = omega (arith, ap total e, v.exact, v.within, v.small)

receive_stream-IsValid :
    (rb : Ringbuffer) (xs : List ℕ)
    → rb.byte_stream ≡ xs
    → IsValid rb
    → IsValid (receive_stream rb xs).0
unfolding receive_stream
receive_stream-IsValid rb [] e v = v
receive_stream-IsValid rb (x ∷ xs) e v = omega (arith, ap length e, v.exact, v.within, v.small)

receive_by-IsValid :
    (t : RingbufferType) (rb : Ringbuffer) → IsValid rb → IsValid (receive_by t rb).0
unfolding receive_by
receive_by-IsValid bytebuf rb v = receive_stream-IsValid rb rb.byte_stream refl v
receive_by-IsValid nosplit rb v = receive_item-IsValid rb rb.items refl v
receive_by-IsValid allowsplit rb v = receive_item-IsValid rb rb.items refl v

-- A receive keeps the count of used bytes exact, and the free size that is reported is what the
-- waiting bytes leave of the size.
pub ringbuffer_receive-IsValid :
    (rb : Ringbuffer)
    → IsValid rb
    → IsValid (x_ringbuffer_receive rb).0
      × (x_ringbuffer_get_cur_free_size rb + total rb.items + length rb.byte_stream ≡ rb.max_size)
unfolding x_ringbuffer_receive x_ringbuffer_get_cur_free_size
ringbuffer_receive-IsValid rb v =
    (receive_by-IsValid rb.rtype rb v, omega (arith, v.exact, v.within, v.small))
