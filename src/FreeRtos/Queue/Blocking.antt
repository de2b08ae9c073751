-- ===== src/FreeRtos/Queue/Blocking.antt =====
-- What a queue keeps whatever the other tasks do, and what a blocked call comes to.
use esp32emu.Base.{
  Bool, false, not, ◌&&◌, ◌==◌, if◌then◌else◌, ◌++◌, Option, some, none, sym, ℕ, ◌+◌, ◌^◌, ◌≤◌, ◌<◌,
  ◌≡◌, refl, true, List, [], ◌∷◌, arith, ap, length, length-append, take, length-take, All,
  All-append,
}
use mathlib.Core.Path.{subst}
use esp32emu.FreeRtos.Queue.{
  QueueData, Others, timeout, is_full, x_queue_create, x_queue_send, x_queue_send_to_front,
  x_queue_receive, x_queue_peek, is_empty, ux_queue_messages_waiting, ux_queue_spaces_available,
  push_back, push_front, pop_front, peek_front,
}

pub record IsValid (q : QueueData) : Type 0 where
  pub bounded : length q.items ≤ q.max_length
  pub sized : All (λ (x : List ℕ). length x ≡ q.item_size) q.items

pub x_queue_create-IsValid : (n size : ℕ) → IsValid (x_queue_create n size)
unfolding x_queue_create
x_queue_create-IsValid n size = record { bounded = omega arith; sized = tt }

push_back-IsValid :
    (q : QueueData) (source : List ℕ)
    → IsValid q
    → length q.items < q.max_length
    → q.item_size ≤ length source
    → IsValid (push_back q source)
unfolding push_back
push_back-IsValid q source v room h = record {
  bounded = omega (arith, length-append q.items (take q.item_size source ∷ []));
  sized =
      All-append _ q.items (take q.item_size source ∷ []) v.sized
        (omega (arith, length-take q.item_size source), tt);
}

push_front-IsValid :
    (q : QueueData) (source : List ℕ)
    → IsValid q
    → length q.items < q.max_length
    → q.item_size ≤ length source
    → IsValid (push_front q source)
unfolding push_front
push_front-IsValid q source v room h = record {
  bounded = omega arith;
  sized = (omega (arith, length-take q.item_size source), v.sized);
}

pub pop_front-IsValid :
    (q : QueueData) → IsValid q → (xs : List (List ℕ)) → q.items ≡ xs → IsValid (pop_front q xs).0
unfolding pop_front
pop_front-IsValid q v [] e = v
pop_front-IsValid q v (x ∷ rest) e =
    let sized : All (λ (y : List ℕ). length y ≡ q.item_size) (x ∷ rest) = rw e at v.sized in
    record { bounded = omega (arith, v.bounded, ap length e); sized = sized.1 }

peek_front-state : (q : QueueData) (xs : List (List ℕ)) → (peek_front q xs).0 ≡ q
unfolding peek_front
peek_front-state q [] = refl
peek_front-state q (x ∷ rest) = refl

-- The other tasks leave a valid queue valid, and its item size as it is.
pub record Respects (others : Others) : Type 0 where
  pub valid : (ms : ℕ) (q : QueueData) → IsValid q → IsValid (others ms q)
  pub same_size : (ms : ℕ) (q : QueueData) → (others ms q).item_size ≡ q.item_size

module _ (others : Others) (r : Respects others) (q : QueueData) (v : IsValid q) where
  -- A send, to the back or to the front, keeps the queue within its length and every item at the
  -- item size, if the source has that many bytes and the other tasks respect the queue.
  pub sends-IsValid :
      (source : List ℕ) (ticks : ℕ)
      → q.item_size ≤ length source
      → IsValid (x_queue_send others q source ticks).0
        × IsValid (x_queue_send_to_front others q source ticks).0
  unfolding x_queue_send x_queue_send_to_front
  sends-IsValid source ticks h =
      let q' = others (timeout ticks) q in
      ground (
        arith,
        push_back-IsValid q source v,
        push_front-IsValid q source v,
        push_back-IsValid q' source (r.valid (timeout ticks) q v),
        push_front-IsValid q' source (r.valid (timeout ticks) q v),
        r.valid (timeout ticks) q v,
        r.same_size (timeout ticks) q,
      )

  -- A receive or a peek keeps the queue within its length and every item at the item size, if the
  -- other tasks respect the queue.
  pub receives-IsValid :
      (ticks : ℕ)
      → IsValid (x_queue_receive others q ticks).0 × IsValid (x_queue_peek others q ticks).0
  unfolding x_queue_receive x_queue_peek
  receives-IsValid ticks =
      let q' = others (timeout ticks) q in
      ground (
        arith,
        pop_front-IsValid q v q.items refl,
        pop_front-IsValid q' (r.valid (timeout ticks) q v) q'.items refl,
        peek_front-state q q.items,
        peek_front-state q' q'.items,
        r.valid (timeout ticks) q v,
      )

-- The moment of a call: a call that is blocked and ready to wait takes effect on the queue that its wait
-- ends with, any other on the queue that it finds.
abbrev pub moment : Others → QueueData → Bool → ℕ → QueueData
moment others q blocked ticks = if blocked && not (ticks == 0) then others (timeout ticks) q else q

-- An item is put in at one end if there is room, and otherwise nothing happens.
abbrev pub Put :
    (List (List ℕ) → List ℕ → List (List ℕ)) → QueueData → List ℕ → QueueData × Bool → Type 0
Put place q source r =
    (length q.items < q.max_length
      → r ≡ (record q { items = place q.items (take q.item_size source) }, true))
    × (q.max_length ≤ length q.items → r ≡ (q, false))

abbrev pub behind : List (List ℕ) → List ℕ → List (List ℕ)
behind xs x = xs ++ x ∷ []

abbrev pub ahead : List (List ℕ) → List ℕ → List (List ℕ)
ahead xs x = x ∷ xs

-- The first item is handed out and the queue becomes what `left` says, and from an empty queue nothing
-- is handed out.
abbrev pub HandedOut :
    (List ℕ → List (List ℕ) → List (List ℕ)) → QueueData → QueueData × Option (List ℕ) → Type 0
HandedOut left q r =
    (q.items ≡ [] → r ≡ (q, none))
    × ((x : List ℕ) (rest : List (List ℕ))
        → q.items ≡ x ∷ rest
        → r ≡ (record q { items = left x rest }, some (take q.item_size x)))

abbrev pub dropped : List ℕ → List (List ℕ) → List (List ℕ)
dropped x rest = rest

abbrev pub kept : List ℕ → List (List ℕ) → List (List ℕ)
kept x rest = x ∷ rest

pop_front-HandedOut : (q : QueueData) → HandedOut dropped q (pop_front q q.items)
unfolding pop_front
pop_front-HandedOut q = (λ e. rw e refl, λ x rest e. rw e refl)

peek_front-HandedOut : (q : QueueData) → HandedOut kept q (peek_front q q.items)
unfolding peek_front
peek_front-HandedOut q = (λ e. rw e refl, λ x rest e. rw e refl)

pop_front-empty :
    (q : QueueData) (xs : List (List ℕ)) → is_empty xs ≡ true → pop_front q xs ≡ (q, none)
unfolding pop_front is_empty
pop_front-empty q [] e = refl
pop_front-empty q (x ∷ xs) e = absurd (ground (arith, e))

peek_front-empty :
    (q : QueueData) (xs : List (List ℕ)) → is_empty xs ≡ true → peek_front q xs ≡ (q, none)
unfolding peek_front is_empty
peek_front-empty q [] e = refl
peek_front-empty q (x ∷ xs) e = absurd (ground (arith, e))

pub receive-moment :
    (others : Others) (q : QueueData) (ticks : ℕ)
    → let m = moment others q (is_empty q.items) ticks in
      x_queue_receive others q ticks ≡ pop_front m m.items
unfolding x_queue_receive
receive-moment others q ticks =
    let q' = others (timeout ticks) q in
    ground (arith, pop_front-empty q q.items, pop_front-empty q' q'.items)

pub peek-moment :
    (others : Others) (q : QueueData) (ticks : ℕ)
    → let m = moment others q (is_empty q.items) ticks in
      x_queue_peek others q ticks ≡ peek_front m m.items
unfolding x_queue_peek
peek-moment others q ticks =
    let q' = others (timeout ticks) q in
    ground (arith, peek_front-empty q q.items, peek_front-empty q' q'.items)

-- Each of the four calls, whatever its ticks, is one that does not wait, at its moment: a send to the
-- back or the front puts the item there if the queue has room at that moment and otherwise fails and
-- changes nothing, a receive takes the first item out and a peek copies it and leaves it, and both fail
-- and change nothing if the queue is empty at that moment.
pub blocked_calls :
    (others : Others) (q : QueueData) (source : List ℕ) (ticks : ℕ)
    → let room = moment others q (is_full q) ticks in
      let filled = moment others q (is_empty q.items) ticks in
      Put behind room source (x_queue_send others q source ticks)
      × Put ahead room source (x_queue_send_to_front others q source ticks)
      × HandedOut dropped filled (x_queue_receive others q ticks)
      × HandedOut kept filled (x_queue_peek others q ticks)
unfolding x_queue_send x_queue_send_to_front push_back push_front
blocked_calls others q source ticks =
    let filled = moment others q (is_empty q.items) ticks in
    (
      (λ h. ground arith, λ h. ground arith),
      (λ h. ground arith, λ h. ground arith),
      subst (HandedOut dropped filled) (sym (receive-moment others q ticks))
          (pop_front-HandedOut filled),
      subst (HandedOut kept filled) (sym (peek-moment others q ticks))
          (peek_front-HandedOut filled),
    )

-- In a valid queue of fewer than 2 ^ 32 places the messages that wait and the spaces that are left
-- make up its length: neither call wraps.
pub messages-add-spaces :
    (q : QueueData)
    → IsValid q
    → q.max_length < 2 ^ 32
    → ux_queue_messages_waiting q + ux_queue_spaces_available q ≡ q.max_length
unfolding ux_queue_messages_waiting ux_queue_spaces_available
messages-add-spaces q v h = omega (arith, v.bounded)
