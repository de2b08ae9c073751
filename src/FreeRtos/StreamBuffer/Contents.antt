-- ===== src/FreeRtos/StreamBuffer/Contents.antt =====
-- A stream buffer is a queue of bytes: what `send` and `receive` do to its contents.
use esp32emu.Base.{
  ℕ, zero, suc, ◌+◌, ◌-◌, ◌%◌, ◌^◌, ◌≤◌, ◌<◌, min, ◌≡◌, ◌↔◌, true, refl, sym, ap, ap₂, ◌∙◌, List,
  [], ◌∷◌, ◌++◌, arith, length, length-set, length-take, length-replicate, get_or, set, take,
  append_assoc, append-nil, add_size, sub_size, ltb, ◌==◌, Bool-cases, inl, inr,
}
use esp32emu.FreeRtos.StreamBuffer.{
  StreamBuffer, stream_buffer, send_loop, send, receive_loop, receive, reset, spaces_available,
  bytes_available, is_empty, is_full,
}
use native.Mathlib.Nat.{mod-lt}
use esp32emu.FreeRtos.StreamBuffer.Ring.{window, length-window, window-add, window-mod, window-set}

pub record IsValid (s : StreamBuffer) : Type 0 where
  pub storage : length s.buf ≡ s.capacity
  pub positive : 0 < s.capacity
  pub small : s.capacity ≤ 2 ^ 62
  pub head_in : s.head < s.capacity
  pub count_in : s.count ≤ s.capacity

empty_window : (buf : List ℕ) (cap h n : ℕ) → n ≡ 0 → window buf cap h n ≡ []
empty_window buf cap h zero e = refl
empty_window buf cap h (suc n) e = absurd (omega arith)

zero_test : (n : ℕ) → n ≡ 0 → (n == 0) ≡ true
zero_test n e = ground arith

-- The bytes that wait, oldest first.
abbrev pub contents : StreamBuffer → List ℕ
contents s = window s.buf s.capacity s.head s.count

pub length-contents : (s : StreamBuffer) → length (contents s) ≡ s.count
length-contents s = length-window s.buf s.capacity s.head s.count

pub stream_buffer-IsValid :
    (n : ℕ) → 0 < n → n ≤ 2 ^ 62 → IsValid (stream_buffer n) × (contents (stream_buffer n) ≡ [])
unfolding stream_buffer
stream_buffer-IsValid n p q = (omega (arith, length-replicate {A = ℕ} n 0), refl)

length-send_loop :
    (buf : List ℕ) (cap h c : ℕ) (xs : List ℕ) (i : ℕ)
    → length (send_loop buf cap h c xs i) ≡ length buf
unfolding send_loop
length-send_loop buf cap h c [] i = refl
length-send_loop buf cap h c (x ∷ xs) i =
    length-send_loop (set buf (add_size (add_size h c) i % cap) x) cap h c xs (i + 1)
    ∙ length-set buf (add_size (add_size h c) i % cap) x

window-send_loop :
    (buf : List ℕ) (cap h c : ℕ) (xs : List ℕ) (i : ℕ)
    → length buf ≡ cap
    → h < cap
    → cap ≤ 2 ^ 62
    → c + i + length xs ≤ cap
    → window (send_loop buf cap h c xs i) cap h (c + i + length xs) ≡ window buf cap h (c + i) ++ xs
unfolding send_loop
window-send_loop buf cap h c [] i size hh small fits =
    ap (window buf cap h) (omega arith) ∙ sym (append-nil _)
window-send_loop buf cap h c (x ∷ xs) i size hh small fits =
    let place : add_size (add_size h c) i ≡ h + (c + i) = omega arith in
    let next : c + (i + 1) ≡ suc (c + i) = omega arith in
    let buf' = set buf (add_size (add_size h c) i % cap) x in
    let size' : length buf' ≡ cap = length-set buf (add_size (add_size h c) i % cap) x ∙ size in
    ap (window (send_loop buf' cap h c xs (i + 1)) cap h) (omega arith)
    ∙ window-send_loop buf' cap h c xs (i + 1) size' hh small (omega arith)
    ∙ ap (λ t. t ++ xs)
        (ap₂ (λ p n. window (set buf (p % cap) x) cap h n) place next
          ∙ window-set cap h buf x (c + i) (omega arith) (omega arith))
    ∙ append_assoc (window buf cap h (c + i)) (x ∷ []) xs

-- On a valid buffer `send` takes as many bytes as fit, reports their number, appends exactly those
-- in order to the contents, and leaves the buffer valid, if the source holds the bytes to be sent.
pub send_lem :
    (s : StreamBuffer) (src : List ℕ) (len : ℕ)
    → IsValid s
    → len ≤ length src
    → let (s', n) = send s src len in
      (n ≡ min len (s.capacity - s.count)) × (contents s' ≡ contents s ++ take n src) × IsValid s'
unfolding send
send_lem s src len v h =
    let n = (send s src len).1 in
    let e : n ≡ min len (s.capacity - s.count) = ground arith in
    let l : length (take n src) ≡ n = omega (arith, length-take n src, e) in
    let buf' = send_loop s.buf s.capacity s.head s.count (take n src) 0 in
    let w =
      window-send_loop s.buf s.capacity s.head s.count (take n src) 0 v.storage v.head_in v.small
        (omega (arith, l, e, v.count_in)) in
    (
      e,
      ap (window buf' s.capacity s.head) (omega (arith, l, e, v.small, v.count_in))
          ∙ w
          ∙ ap (λ k. window s.buf s.capacity s.head k ++ take n src) (omega arith),
      omega (arith, e, v, length-send_loop s.buf s.capacity s.head s.count (take n src) 0),
    )

receive_loop-window :
    (buf : List ℕ) (cap h n i : ℕ)
    → h + i + n < 2 ^ 64
    → receive_loop buf cap h n i ≡ window buf cap (h + i) n
unfolding receive_loop
receive_loop-window buf cap h zero i small = refl
receive_loop-window buf cap h (suc n) i small =
    ap₂ ◌∷◌ (ap (λ k. get_or buf (k % cap) 0) (omega arith)) (
      receive_loop-window buf cap h n (i + 1) (omega arith)
      ∙ ap (λ k. window buf cap k n) (omega arith))

-- What taking `n` bytes out leaves.
abbrev taken : StreamBuffer → ℕ → StreamBuffer
taken s n = record s { head = add_size s.head n % s.capacity; count = sub_size s.count n }

taken_lem :
    (s : StreamBuffer) (n : ℕ)
    → IsValid s
    → n ≤ s.count
    → (length (receive_loop s.buf s.capacity s.head n 0) ≡ n)
      × (contents s ≡ receive_loop s.buf s.capacity s.head n 0 ++ contents (taken s n))
      × IsValid (taken s n)
taken_lem s n v h =
    let out : receive_loop s.buf s.capacity s.head n 0 ≡ window s.buf s.capacity s.head n =
      receive_loop-window s.buf s.capacity s.head n 0
        (omega (arith, v.small, v.head_in, v.count_in))
      ∙ ap (λ k. window s.buf s.capacity k n) (omega arith) in
    let place : add_size s.head n ≡ s.head + n = omega (arith, v.small, v.head_in, v.count_in) in
    let left : sub_size s.count n ≡ s.count - n = omega (arith, v.small, v.count_in) in
    let rest : contents (taken s n) ≡ window s.buf s.capacity (s.head + n) (s.count - n) =
      ap₂ (λ p k. window s.buf s.capacity (p % s.capacity) k) place left
      ∙ window-mod s.buf s.capacity (s.head + n) (s.count - n) in
    (
      ap length out ∙ length-window s.buf s.capacity s.head n,
      ap (window s.buf s.capacity s.head) (omega arith)
          ∙ window-add s.buf s.capacity s.head n (s.count - n)
          ∙ ap₂ (λ a b. a ++ b) (sym out) (sym rest),
      record {
        storage = v.storage;
        positive = v.positive;
        small = v.small;
        head_in = mod-lt (add_size s.head n) v.positive;
        count_in = omega (arith, left, v.count_in);
      },
    )

-- On a valid buffer `receive` hands over the oldest bytes, as many as are asked for and there are,
-- leaves the rest, and leaves the buffer valid.
pub receive_lem :
    (s : StreamBuffer) (len : ℕ)
    → IsValid s
    → let (s', out) = receive s len in
      (length out ≡ min len s.count) × (contents s ≡ out ++ contents s') × IsValid s'
unfolding receive
receive_lem s len v = elim (Bool-cases (ltb len s.count)) [
  | inl e ↦ rw e (let t = taken_lem s len v (ground arith) in (t.0 ∙ ground arith, t.1, t.2))
  | inr e ↦ rw e (let t = taken_lem s s.count v (ground arith) in (t.0 ∙ ground arith, t.1, t.2))
]

-- The four readings of a valid buffer agree with its contents: the bytes that wait, the spaces that
-- are left, whether it is empty and whether it is full; and `reset` empties it.
pub readings :
    (s : StreamBuffer)
    → IsValid s
    → (bytes_available s ≡ length (contents s))
      × (bytes_available s + spaces_available s ≡ s.capacity)
      × ((is_empty s ≡ true) ↔ (contents s ≡ []))
      × ((is_full s ≡ true) ↔ (spaces_available s ≡ 0))
      × (contents (reset s) ≡ [])
      × IsValid (reset s)
unfolding bytes_available spaces_available is_empty is_full reset
readings s v = (
  sym (length-contents s),
  omega (arith, v.small, v.count_in),
  (
    λ e. empty_window s.buf s.capacity s.head s.count (ground arith),
    λ e. zero_test s.count (sym (length-contents s) ∙ ap length e),
  ),
  ground (arith, v.small, v.count_in),
  refl,
  omega (arith, v),
)
