-- ===== src/Peripherals/Uart/Fifo.antt =====
-- The order of bytes through a port, and the ports' independence.
use esp32emu.Base.{
  u32, ltb, ◌^◌, ℕ, zero, suc, ◌-◌, ◌≤◌, ◌<◌, ◌≡◌, ◌≢◌, refl, sym, ap, ◌∙◌, true, List, [], ◌++◌,
  append-nil, arith, All, length, length-take, length-drop, take, drop, take-append-drop, min,
}
use esp32emu.Base.Esp.{done, failed, fault}
use esp32emu.Base.History.{run, run_order, IsOrderly}
use esp32emu.Peripherals.Uart.{
  UartConfig, UartPort, UartDriver, configure, inject_rx, read, write, get_tx_data, flush,
  rx_available, port_number, by_number, put_number, port, put_port, uart_read_bytes,
  uart_get_buffered_data_len,
}

-- What can happen to a port, but for its deletion.
pub data Call : Type 0 where
  arrive send : List ℕ → Call
  receive : ℕ → Call
  set_up : UartConfig → Call
  collect flush_tx : Call

-- The port after a call, the bytes that came in, and those that the caller read.
unfoldable pub rx_step : UartPort → Call → UartPort × List ℕ × List ℕ
unfolding inject_rx write get_tx_data configure flush
rx_step p (arrive bytes) = (inject_rx p bytes, bytes, [])
rx_step p (send bytes) = ((write p bytes).0, [], [])
rx_step p (receive n) = elim (read p n) [
  | done (p', bytes, count) ↦ (p', [], bytes)
  | failed e ↦ (p, [], [])
  | fault ↦ (p, [], [])
]
rx_step p collect = ((get_tx_data p).0, [], [])
rx_step p (set_up cfg) = (configure p cfg, [], [])
rx_step p flush_tx = (flush p, [], [])

abbrev waiting : UartPort → List ℕ
waiting p = p.rx_buf

abbrev Any : UartPort → Type 0
Any p = Unit {0}

-- A read for fewer than 2^31 bytes, or another call.
abbrev pub InRange : Call → Type 0
InRange (receive n) = n < 2 ^ 31
InRange (arrive bytes) = Unit {0}
InRange (send bytes) = Unit {0}
InRange (set_up cfg) = Unit {0}
InRange collect = Unit {0}
InRange flush_tx = Unit {0}

read-done :
    (p : UartPort) (len : ℕ)
    → len < 2 ^ 31
    → let n = min len (length p.rx_buf) in
      read p len ≡ done (record p { rx_buf = drop n p.rx_buf }, take n p.rx_buf, n)
unfolding read
read-done p len h =
    let n = min len (length p.rx_buf) in
    let small : ltb (u32 n) (2 ^ 31) ≡ true = ground arith in
    let same : u32 n ≡ n = omega arith in
    rw small (ap (λ (k : ℕ). done (record p { rx_buf = drop k p.rx_buf }, take n p.rx_buf, k)) same)

rx_step-IsOrderly : IsOrderly rx_step waiting Any InRange
unfolding rx_step inject_rx write get_tx_data configure flush
rx_step-IsOrderly p (arrive bytes) v h = (tt, refl)
rx_step-IsOrderly p (send bytes) v h = (tt, sym (append-nil p.rx_buf))
rx_step-IsOrderly p (receive n) v h =
    rw (rx_step, read-done p n h)
      (tt, take-append-drop (min n (length p.rx_buf)) p.rx_buf ∙ sym (append-nil p.rx_buf))
rx_step-IsOrderly p collect v h = (tt, sym (append-nil p.rx_buf))
rx_step-IsOrderly p (set_up cfg) v h = (tt, sym (append-nil p.rx_buf))
rx_step-IsOrderly p flush_tx v h = (tt, sym (append-nil p.rx_buf))

-- Over any history of a port whose reads are for fewer than 2^31 bytes each, its deletion aside, bytes are read in the order in which they came, none lost and none twice:
-- what was read and then what waits is what waited and then what came in.
pub rx_bytes_order :
    (p : UartPort) (cs : List Call)
    → All InRange cs
    → let (p', came, taken) = run rx_step p cs in taken ++ p'.rx_buf ≡ p.rx_buf ++ came
rx_bytes_order p cs h = run_order rx_step waiting Any InRange rx_step-IsOrderly cs p tt h

-- A port that is put under a number is what that number shows, and no other port changes.
by_number-put_number :
    (d : UartDriver) (i j : ℕ) (p : UartPort)
    → i ≤ 2
    → j ≤ 2
    → (by_number (put_number d i p) i ≡ p)
      × (i ≢ j → by_number (put_number d i p) j ≡ by_number d j)
unfolding by_number put_number
by_number-put_number d zero zero p h k = (refl, λ ne. absurd (ne refl))
by_number-put_number d zero (suc zero) p h k = (refl, λ ne. refl)
by_number-put_number d zero (suc (suc j)) p h k = (refl, λ ne. refl)
by_number-put_number d (suc zero) zero p h k = (refl, λ ne. refl)
by_number-put_number d (suc zero) (suc zero) p h k = (refl, λ ne. absurd (ne refl))
by_number-put_number d (suc zero) (suc (suc j)) p h k = (refl, λ ne. refl)
by_number-put_number d (suc (suc i)) zero p h k = (refl, λ ne. refl)
by_number-put_number d (suc (suc i)) (suc zero) p h k = (refl, λ ne. refl)
by_number-put_number d (suc (suc i)) (suc (suc j)) p h k = (refl, λ ne. absurd (ne (omega arith)))

port_number_le : (i : ℕ) → port_number i ≤ 2
unfolding port_number
port_number_le i = ground arith

-- A read of fewer than 2^31 bytes from a port takes the first waiting bytes, as many as wait or as fit, and leaves the rest to be
-- counted; ports of other numbers are as before, and a number above 2 is port 0.
pub read_bytes_lem :
    (d : UartDriver) (i len : ℕ)
    → len < 2 ^ 31
    → (d' : UartDriver) × (bytes : List ℕ) × (uart_read_bytes d i len
        ≡ done (d', bytes, length bytes))
      × (bytes ++ (port d' i).rx_buf ≡ (port d i).rx_buf)
      × (length bytes ≡ min len (length (port d i).rx_buf))
      × (uart_get_buffered_data_len d' i true ≡ done (length (port d i).rx_buf - len))
      × ((j : ℕ) → port_number i ≢ port_number j → port d' j ≡ port d j)
      × (2 < i → port d i ≡ port d 0)
unfolding uart_read_bytes uart_get_buffered_data_len rx_available port put_port port_number
read_bytes_lem d i len small =
    let q = port d i in
    let n = min len (length q.rx_buf) in
    let p' : UartPort = record q { rx_buf = drop n q.rx_buf } in
    let at = λ (j : ℕ).
      by_number-put_number d (port_number i) (port_number j) p' (port_number_le i)
        (port_number_le j) in
    let here : port (put_port d i p') i ≡ p' = (at i).0 in
    let count : n ≡ length (take n q.rx_buf) = omega (arith, length-take n q.rx_buf) in
    (
      put_port d i p',
      take n q.rx_buf,
      rw (uart_read_bytes, read-done q len small)
          (ap (λ k. done (put_port d i p', take n q.rx_buf, k)) count),
      ap (λ r. take n q.rx_buf ++ r.rx_buf) here ∙ take-append-drop n q.rx_buf,
      omega (arith, length-take n q.rx_buf),
      ap (λ r. done (length r.rx_buf)) here ∙ ap done (omega (arith, length-drop n q.rx_buf)),
      λ j ne. (at j).1 ne,
      λ big. let first : port_number i ≡ port_number 0 = ground arith in ap (by_number d) first,
    )
