-- ===== src/FreeRtos/Queue/Order.antt =====
-- A queue is first in, first out: its histories, call by call.
use esp32emu.Base.{
  sym, ◌∙◌, ◌&&◌, not, ◌==◌, append_assoc, Bool-cases, inl, inr, ℕ, ◌≤◌, ◌≡◌, refl, ap, Bool, true,
  false, List, [], ◌∷◌, ◌++◌, append-nil, Option, none, some, arith, length, take,
  take_of_length-le, All,
}
use esp32emu.Base.History.{run, run_order, run_kept, IsOrderly}
use esp32emu.FreeRtos.Queue.{
  Others, is_full, is_empty, peek_front, QueueData, alone, x_queue_send, x_queue_receive,
  x_queue_peek, push_back, pop_front,
}
use esp32emu.FreeRtos.Queue.Blocking.{
  moment, receive-moment, peek-moment, IsValid, Respects, sends-IsValid, receives-IsValid,
}

-- A call of some task.
pub data Call : Type 0 where
  send : List ℕ → Call
  receive peek : Call

abbrev accepted : ℕ → List ℕ → Bool → List (List ℕ)
accepted size source true = take size source ∷ []
accepted size source false = []

abbrev handed : Option (List ℕ) → List (List ℕ)
handed none = []
handed (some x) = x ∷ []

-- The state after a call, the items that it put in and those that it took out.
unfoldable pub perform : Others → ℕ → QueueData → Call → QueueData × List (List ℕ) × List (List ℕ)
unfolding x_queue_send x_queue_receive x_queue_peek
perform others ticks q (send source) =
    let (q', passed) = x_queue_send others q source ticks in
    (q', accepted q'.item_size source passed, [])
perform others ticks q receive =
    let (q', out) = x_queue_receive others q ticks in (q', [], handed out)
perform others ticks q peek = let (q', out) = x_queue_peek others q ticks in (q', [], [])

-- A call that does not wait.
abbrev pub now : QueueData → Call → QueueData × List (List ℕ) × List (List ℕ)
now q c = perform alone 0 q c

-- A call of a task with the ticks that it is ready to wait, and the calls of other tasks that take effect
-- while it waits, if it does.
pub record Turn : Type 0 where
  pub call : Call
  pub ticks : ℕ
  pub meanwhile : List Call

abbrev blocked : QueueData → Call → Bool
blocked q (send source) = is_full q
blocked q receive = is_empty q.items
blocked q peek = is_empty q.items

abbrev pub others_of : Turn → Others
others_of t ms q = (run now q t.meanwhile).0

-- The state after a turn, and what it and the calls during its wait put in and took out.
unfoldable pub step : QueueData → Turn → QueueData × List (List ℕ) × List (List ℕ)
unfolding perform
step q t =
    let (q', put, got) = perform (others_of t) t.ticks q t.call in
    let (m, puts, gots) = run now q t.meanwhile in
    elim (blocked q t.call && not (t.ticks == 0)) [
      | true ↦ (q', puts ++ put, gots ++ got)
      | false ↦ (q', put, got)
    ]

-- Every source that is sent has the bytes of an item.
abbrev pub HasBytes : ℕ → Call → Type 0
HasBytes size (send source) = size ≤ length source
HasBytes size receive = Unit {0}
HasBytes size peek = Unit {0}

pop_items :
    (q : QueueData) (xs : List (List ℕ))
    → All (λ (y : List ℕ). length y ≡ q.item_size) xs
    → q.items ≡ xs
    → handed (pop_front q xs).1 ++ (pop_front q xs).0.items ≡ xs
unfolding pop_front
pop_items q [] h e = e
pop_items q (x ∷ rest) h e =
    ap (λ y. y ∷ rest) (take_of_length-le q.item_size x (omega (arith, h.0)))

receive_now : (q : QueueData) → x_queue_receive alone q 0 ≡ pop_front q q.items
unfolding x_queue_receive
receive_now q = ground arith

peek_now : (q : QueueData) → x_queue_peek alone q 0 ≡ peek_front q q.items
unfolding x_queue_peek
peek_now q = ground arith

now_fifo :
    (q : QueueData) (c : Call)
    → IsValid q
    → (now q c).2 ++ (now q c).0.items ≡ q.items ++ (now q c).1
unfolding perform push_back
now_fifo q (send source) v = ground (arith, append-nil q.items)
now_fifo q receive v = rw (receive_now q, append-nil q.items) (pop_items q q.items v.sized refl)
now_fifo q peek v = ground (arith, append-nil q.items)

send-moment :
    (others : Others) (q : QueueData) (source : List ℕ) (ticks : ℕ)
    → x_queue_send others q source ticks
      ≡ x_queue_send alone (moment others q (is_full q) ticks) source 0
unfolding x_queue_send
send-moment others q source ticks = ground arith

-- A call does what a call without a wait does at its moment.
perform-moment :
    (others : Others) (ticks : ℕ) (q : QueueData) (c : Call)
    → perform others ticks q c ≡ now (moment others q (blocked q c) ticks) c
unfolding perform
perform-moment others ticks q (send source) =
    ap
      (λ (r : QueueData × Bool).
        let out : QueueData × List (List ℕ) × List (List ℕ) =
          (r.0, accepted r.0.item_size source r.1, []) in
        out)
      (send-moment others q source ticks)
perform-moment others ticks q receive =
    ap
      (λ (r : QueueData × Option (List ℕ)).
        let out : QueueData × List (List ℕ) × List (List ℕ) = (r.0, [], handed r.1) in out)
      (receive-moment others q ticks ∙ sym (receive_now (moment others q (is_empty q.items) ticks)))
perform-moment others ticks q peek =
    ap
      (λ (r : QueueData × Option (List ℕ)).
        let out : QueueData × List (List ℕ) × List (List ℕ) = (r.0, [], []) in out)
      (peek-moment others q ticks ∙ sym (peek_now (moment others q (is_empty q.items) ticks)))

alone-Respects : Respects alone
alone-Respects = record { valid = λ ms q v. v; same_size = λ ms q. refl }

-- A valid queue whose items have this size.
pub record Sized (size : ℕ) (q : QueueData) : Type 0 where
  pub valid : IsValid q
  pub size_is : q.item_size ≡ size

now-Sized :
    (size : ℕ) (q : QueueData) (c : Call) → Sized size q → HasBytes size c → Sized size (now q c).0
unfolding perform push_back
now-Sized size q (send source) v h = record {
  valid = (sends-IsValid alone alone-Respects q v.valid source 0 (omega (arith, v.size_is))).0;
  size_is = ground (arith, v.size_is);
}
now-Sized size q receive v h = record {
  valid = (receives-IsValid alone alone-Respects q v.valid 0).0;
  size_is = ground (arith, v.size_is);
}
now-Sized size q peek v h = record {
  valid = (receives-IsValid alone alone-Respects q v.valid 0).1;
  size_is = ground (arith, v.size_is);
}

-- Every source that is sent in a turn has the bytes of an item.
abbrev pub AllHaveBytes : ℕ → Turn → Type 0
AllHaveBytes size t = HasBytes size t.call × All (HasBytes size) t.meanwhile

module _ (size : ℕ) where
  now-IsOrderly : IsOrderly now (λ q. q.items) (Sized size) (HasBytes size)
  now-IsOrderly q c v h = (now-Sized size q c v h, now_fifo q c v.valid)

  step-IsOrderly : IsOrderly step (λ q. q.items) (Sized size) (AllHaveBytes size)
  unfolding step
  step-IsOrderly q t v h =
      let m = (run now q t.meanwhile).0 in
      let before =
        run_order now (λ p. p.items) (Sized size) (HasBytes size) now-IsOrderly t.meanwhile q v
          h.1 in
      let v' =
        run_kept now (λ p. p.items) (Sized size) (HasBytes size) now-IsOrderly t.meanwhile q v
          h.1 in
      let same = perform-moment (others_of t) t.ticks q t.call in
      elim (Bool-cases (blocked q t.call && not (t.ticks == 0))) [
        | inl waits ↦
            let here : perform (others_of t) t.ticks q t.call ≡ now m t.call =
              same ∙ rw waits refl in
            let after = now-IsOrderly m t.call v' h.0 in
            rw (step, waits, here)
              (
                after.0,
                append_assoc (run now q t.meanwhile).2 (now m t.call).2 (now m t.call).0.items
                    ∙ ap (λ x. (run now q t.meanwhile).2 ++ x) after.1
                    ∙ sym (append_assoc (run now q t.meanwhile).2 m.items (now m t.call).1)
                    ∙ ap (λ x. x ++ (now m t.call).1) before
                    ∙ append_assoc q.items (run now q t.meanwhile).1 (now m t.call).1,
              )
        | inr at_once ↦
            let here : perform (others_of t) t.ticks q t.call ≡ now q t.call =
              same ∙ rw at_once refl in
            rw (step, at_once, here) (now-IsOrderly q t.call v h.0)
      ]

-- First in, first out: over every history of sends to the back, receives and peeks on a valid queue,
-- by any tasks in any order, whatever each is ready to wait and whatever such calls others make while
-- it waits, the items received and then those still queued are the items queued at the start and
-- then those accepted since, if every source has the bytes of an item.
pub fifo :
    (size : ℕ) (ts : List Turn) (q : QueueData)
    → Sized size q
    → All (AllHaveBytes size) ts
    → let (q', put, got) = run step q ts in got ++ q'.items ≡ q.items ++ put
fifo size ts q v h =
    run_order step (λ p. p.items) (Sized size) (AllHaveBytes size) (step-IsOrderly size) ts q v h
