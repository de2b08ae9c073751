-- ===== src/FreeRtos/StreamBuffer/Messages.antt =====
-- A message buffer is a queue of messages: each is kept as four bytes of length and its own bytes.
use esp32emu.Base.{
  ℕ, ◌+◌, ◌-◌, ◌^◌, ◌≤◌, ◌<◌, ◌≡◌, true, false, refl, sym, ap, ap₂, ◌∙◌, List, [], ◌∷◌, ◌++◌, arith,
  length, length-append, take, drop, take-append, drop-append, append_assoc, append-nil, add_size,
  sub_size, take_of_length-le, ltb, u32,
}
use esp32emu.FreeRtos.StreamBuffer.{
  StreamBuffer, send, receive, bytes_of_u32, u32_of_bytes, x_message_buffer_send,
  x_message_buffer_receive, spaces_available, bytes_available,
}
use esp32emu.FreeRtos.StreamBuffer.Contents.{
  IsValid, contents, length-contents, send_lem, receive_lem,
}

-- How messages lie in the buffer.
abbrev pub encode : List (List ℕ) → List ℕ
encode [] = []
encode (m ∷ ms) = bytes_of_u32 (length m) ++ (m ++ encode ms)

-- A buffer that holds these messages, oldest first, and nothing else.
pub record Holds (s : StreamBuffer) (ms : List (List ℕ)) : Type 0 where
  pub valid : IsValid s
  pub encoded : contents s ≡ encode ms

pub u32_of_bytes-bytes_of_u32 : (n : ℕ) → n < 2 ^ 32 → u32_of_bytes (bytes_of_u32 n) ≡ n
u32_of_bytes-bytes_of_u32 n h = omega arith

-- A prefix of known length is what a split at that length gives.
split_lem :
    (a b out rest : List ℕ) → a ++ b ≡ out ++ rest → length out ≡ length a → (out ≡ a) × (rest ≡ b)
split_lem a b out rest e l =
    let t : take (length a) (a ++ b) ≡ take (length out) (out ++ rest) =
      ap₂ (λ n (xs : List ℕ). take n xs) (sym l) e in
    let d : drop (length a) (a ++ b) ≡ drop (length out) (out ++ rest) =
      ap₂ (λ n (xs : List ℕ). drop n xs) (sym l) e in
    (
      sym (take-append out rest) ∙ sym t ∙ take-append a b,
      sym (drop-append out rest) ∙ sym d ∙ drop-append a b,
    )

-- Taking the first bytes of known contents.
receive_prefix :
    (s : StreamBuffer) (a b : List ℕ)
    → IsValid s
    → contents s ≡ a ++ b
    → let (s', out) = receive s (length a) in (out ≡ a) × (contents s' ≡ b) × IsValid s'
receive_prefix s a b v e =
    let t = receive_lem s (length a) v in
    let (p, q) =
      split_lem a b (receive s (length a)).1 (contents (receive s (length a)).0) (sym e ∙ t.1)
        (omega (arith, t.0, length-contents s, ap length e, length-append a b)) in
    (p, q, t.2)

-- On a valid message buffer a receive with room for the oldest message, of fewer than 2^32 bytes,
-- returns that message whole, and leaves the others.
pub message_receive_lem :
    (s : StreamBuffer) (m : List ℕ) (ms : List (List ℕ)) (room : ℕ)
    → Holds s (m ∷ ms)
    → length m ≤ room
    → length m < 2 ^ 32
    → let (s', out) = x_message_buffer_receive s room in (out ≡ m) × Holds s' ms
unfolding x_message_buffer_receive bytes_available
message_receive_lem s m ms room h fits small =
    let p = receive_prefix s (bytes_of_u32 (length m)) (m ++ encode ms) h.valid h.encoded in
    let q = receive_prefix (receive s 4).0 m (encode ms) p.2 p.1 in
    let long : ltb s.count 4 ≡ false = ground (arith, length-contents s, ap length h.encoded) in
    let len : u32_of_bytes (receive s 4).1 ≡ length m =
      ap u32_of_bytes p.0 ∙ u32_of_bytes-bytes_of_u32 (length m) small in
    let enough : ltb room (length m) ≡ false = ground arith in
    rw (long, len, enough) (q.0, record { valid = q.2; encoded = q.1 })

encode-append :
    (ms : List (List ℕ)) (m : List ℕ) → encode (ms ++ m ∷ []) ≡ encode ms ++ encode (m ∷ [])
encode-append [] m = refl
encode-append (x ∷ ms) m =
    ap (λ t. bytes_of_u32 (length x) ++ (x ++ t)) (encode-append ms m)
    ∙ ap (λ t. bytes_of_u32 (length x) ++ t) (sym (append_assoc x (encode ms) _))

-- Sending all of some bytes for which there is room.
send_all :
    (s : StreamBuffer) (src : List ℕ)
    → IsValid s
    → length src ≤ s.capacity - s.count
    → let (s', n) = send s src (length src) in
      (contents s' ≡ contents s ++ src) × IsValid s' × (s'.capacity ≡ s.capacity)
unfolding send
send_all s src v room =
    let t = send_lem s src (length src) v (omega arith) in
    let e : (send s src (length src)).1 ≡ length src = omega (arith, t.0) in
    (
      t.1
          ∙ ap (λ n. contents s ++ take n src) e
          ∙ ap (λ xs. contents s ++ xs) (take_of_length-le (length src) src (omega arith)),
      t.2,
      refl,
    )

-- On a valid message buffer a send of a message of fewer than 2^32 bytes for which there is room, the
-- four bytes of the length included, puts the message behind the others; without that room it
-- changes nothing and returns 0.
pub message_send_lem :
    (s : StreamBuffer) (m : List ℕ) (ms : List (List ℕ))
    → Holds s ms
    → length m < 2 ^ 32
    → let (s', n) = x_message_buffer_send s m (length m) in
      (length m + 4 ≤ s.capacity - s.count → (n ≡ length m) × Holds s' (ms ++ m ∷ []))
      × (s.capacity - s.count < length m + 4 → (n ≡ 0) × (s' ≡ s))
unfolding x_message_buffer_send spaces_available
message_send_lem s m ms h small = (
  λ room.
      let fits : ltb (sub_size s.capacity s.count) (add_size (length m) 4) ≡ false =
        ground (arith, h.valid.small, h.valid.count_in) in
      let len : u32 (length m) ≡ length m = omega arith in
      let p = send_all s (bytes_of_u32 (length m)) h.valid (omega arith) in
      let s' = (send s (bytes_of_u32 (length m)) 4).0 in
      let q = send_all s' m p.1 (
        omega (
          arith,
          length-contents s',
          length-contents s,
          ap length p.0,
          length-append (contents s) (bytes_of_u32 (length m)),
          p.2,
        )) in
      rw (fits, len)
        (
          refl,
          record {
            valid = q.1;
            encoded =
                q.0
                ∙ ap (λ t. t ++ m) (p.0 ∙ ap (λ t. t ++ bytes_of_u32 (length m)) h.encoded)
                ∙ append_assoc (encode ms) (bytes_of_u32 (length m)) m
                ∙ ap (λ t. encode ms ++ (bytes_of_u32 (length m) ++ t)) (sym (append-nil m))
                ∙ sym (encode-append ms m);
          },
        ),
  λ full.
      let short : ltb (sub_size s.capacity s.count) (add_size (length m) 4) ≡ true =
        ground (arith, h.valid.small, h.valid.count_in) in
      rw short (refl, refl),
)
