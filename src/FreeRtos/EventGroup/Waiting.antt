-- ===== src/FreeRtos/EventGroup/Waiting.antt =====
-- What an event group's calls do, bit by bit.
use esp32emu.Base.{
  ◌&&◌, ℕ, ◌-◌, ◌^◌, ◌≤◌, ◌<◌, min, ◌≡◌, ◌≢◌, ◌↔◌, refl, sym, ap, ◌∙◌, Bool, true, false, not,
  Option-cases, some, arith, bit_and, bit_or, ◌==◌, ==_iff, inl, inr, Bool-cases,
}
use Prim.Native.Nat.{max}
use esp32emu.Base.Bits.{
  bit, bit_not, bit-bit_and, bit-bit_or, bit-bit_not, bit_ext, bit_and-lt, bit_le_one, some_bit,
  bit_zero,
}
use esp32emu.FreeRtos.EventGroup.{
  EventGroup, predicate, x_event_group_set_bits, x_event_group_clear_bits, x_event_group_wait_bits,
  x_event_group_sync, port_max_delay, wait, leave,
}

-- Setting and clearing bits of a group of 32 bits touches those bits only, place by place: a set
-- returns the new bits, a clear the old ones.
pub set_clear_bits :
    (eg : EventGroup) (b i : ℕ)
    → b < 2 ^ 32
    → i < 32
    → let (s, now) = x_event_group_set_bits eg b in
      let (c, before) = x_event_group_clear_bits eg b in
      (bit s.bits i ≡ max (bit eg.bits i) (bit b i))
      × (now ≡ s.bits)
      × (bit c.bits i ≡ min (bit eg.bits i) (1 - bit b i))
      × (before ≡ eg.bits)
unfolding x_event_group_set_bits x_event_group_clear_bits
set_clear_bits eg b i h k = (
  bit-bit_or eg.bits b i,
  refl,
  bit-bit_and eg.bits (bit_not 32 b) i ∙ ap (min (bit eg.bits i)) (bit-bit_not 32 b i h k),
  refl,
)

same_and : (b w i : ℕ) → bit_and b w ≡ w → bit w i ≤ bit b i
same_and b w i e = omega (arith, ap (λ x. bit x i) e, bit-bit_and b w i)

shared_ne_zero : (b w i : ℕ) → bit b i ≡ 1 → bit w i ≡ 1 → bit_and b w ≢ 0
shared_ne_zero b w i p q e = omega (arith, ap (λ x. bit x i) e, bit-bit_and b w i, bit_zero i)

not_test : (a b : ℕ) → ((not (a == b)) ≡ true) ↔ (a ≢ b)
not_test a b = (λ h e. ground arith, λ ne. ground arith)

-- The condition of a wait for all bits holds exactly if each awaited bit is set, and that of a wait
-- for any bit exactly if some awaited bit is set.
pub predicate_lem :
    (b w : ℕ)
    → b < 2 ^ 32
    → w < 2 ^ 32
    → ((predicate b w true ≡ true) ↔ ((i : ℕ) → i < 32 → bit w i ≤ bit b i))
      × ((predicate b w false ≡ true) ↔ ((i : ℕ) × (i < 32) × (bit b i ≡ 1) × (bit w i ≡ 1)))
unfolding predicate
predicate_lem b w hb hw = (
  (
    λ h i k. same_and b w i ((==_iff _ w).0 h),
    λ f. (==_iff _ w).1 (
        bit_ext 32 (bit_and b w) w (bit_and-lt 32 b w hb) hw
          (λ i k. omega (arith, bit-bit_and b w i, f i k))),
  ),
  (
    λ h.
        let (i, k, e) = some_bit 32 (bit_and b w) (bit_and-lt 32 b w hb) ((not_test _ 0).0 h) in
        (
          i,
          k,
          omega (arith, e, bit-bit_and b w i, bit_le_one b i),
          omega (arith, e, bit-bit_and b w i, bit_le_one w i),
        ),
    λ (i, k, p, q). (not_test _ 0).1 (shared_ne_zero b w i p q),
  ),
)

abbrev pub expected : ℕ → ℕ → Bool → ℕ → ℕ
expected r w true i = min (bit r i) (1 - bit w i)
expected r w false i = bit r i

leave-bits :
    (eg : EventGroup) (w i : ℕ) (clear all : Bool)
    → w < 2 ^ 32
    → i < 32
    → bit (leave eg w clear all).0.bits i ≡ expected eg.bits w (predicate eg.bits w all && clear) i
unfolding leave
leave-bits eg w i clear all h k = elim (Bool-cases (predicate eg.bits w all && clear)) [
  | inl e ↦
      rw e
        (bit-bit_and eg.bits (bit_not 32 w) i ∙ ap (min (bit eg.bits i)) (bit-bit_not 32 w i h k))
  | inr e ↦ rw e
]

wait_lem :
    (others : EventGroup → EventGroup) (eg g : EventGroup) (w ticks : ℕ) (all : Bool)
    → wait others eg w all ticks ≡ some g
    → (ticks ≡ port_max_delay → predicate g.bits w all ≡ true)
      × (predicate eg.bits w all ≡ true → g ≡ eg)
unfolding wait
wait_lem others eg g w ticks all e = (λ u. ground arith, λ u. ground arith)

wait_bits_parts :
    (others : EventGroup → EventGroup) (eg s : EventGroup) (w ticks r : ℕ) (clear all : Bool)
    → x_event_group_wait_bits others eg w clear all ticks ≡ some (s, r)
    → (g : EventGroup) × (wait others eg w all ticks ≡ some g) × (leave g w clear all ≡ (s, r))
unfolding x_event_group_wait_bits
wait_bits_parts others eg s w ticks r clear all e =
    elim (Option-cases (wait others eg w all ticks)) [
      | inl n ↦ cc (sym (rw (n, x_event_group_wait_bits) at e))
      | inr (g, q) ↦ (
        g,
        q,
        let e' : some (leave g w clear all) ≡ some (s, r) = rw (q, x_event_group_wait_bits) at e in
            cc,
      )
    ]

-- When a wait returns, the group's bits are those returned, less the awaited ones if its condition
-- held and it was to clear them, place by place. A wait with no limit returns with its condition
-- only, and any wait whose condition holds at once returns the bits it found.
pub wait_bits_lem :
    (others : EventGroup → EventGroup) (eg s : EventGroup) (w ticks r i : ℕ) (clear all : Bool)
    → x_event_group_wait_bits others eg w clear all ticks ≡ some (s, r)
    → w < 2 ^ 32
    → i < 32
    → (bit s.bits i ≡ expected r w (predicate r w all && clear) i)
      × (ticks ≡ port_max_delay → predicate r w all ≡ true)
      × (predicate eg.bits w all ≡ true → r ≡ eg.bits)
unfolding leave
wait_bits_lem others eg s w ticks r i clear all e h k =
    let (g, waited, left) = wait_bits_parts others eg s w ticks r clear all e in
    let state : (leave g w clear all).0 ≡ s = ap (λ x. x.0) left in
    let result : g.bits ≡ r = ap (λ x. x.1) left in
    let t = wait_lem others eg g w ticks all waited in
    (
      ap (λ x. bit x.bits i) (sym state)
          ∙ leave-bits g w i clear all h k
          ∙ ap (λ x. expected x w (predicate x w all && clear) i) result,
      λ u. ap (λ x. predicate x w all) (sym result) ∙ t.0 u,
      λ u. sym result ∙ ap (λ x. x.bits) (t.1 u),
    )

-- A rendezvous completes for the task whose bits complete the set, if the group still has them when
-- its wait begins: `xEventGroupSync` then returns, whatever its limit, with the bits that it finds
-- there, and clears the awaited ones.
pub sync_completes :
    (between others : EventGroup → EventGroup) (eg : EventGroup) (b w ticks : ℕ)
    → eg.bits < 2 ^ 32
    → b < 2 ^ 32
    → w < 2 ^ 32
    → let found = (between (record { bits = bit_or eg.bits b })).bits in
      found < 2 ^ 32
      → ((i : ℕ) → i < 32 → max (bit eg.bits i) (bit b i) ≤ bit found i)
      → ((i : ℕ) → i < 32 → bit w i ≤ max (bit eg.bits i) (bit b i))
      → (s : EventGroup) × (x_event_group_sync between others eg b w ticks ≡ some (s, found))
        × ((i : ℕ) → i < 32 → bit s.bits i ≡ min (bit found i) (1 - bit w i))
unfolding x_event_group_sync x_event_group_wait_bits x_event_group_set_bits wait leave
sync_completes between others eg b w ticks he hb hw small keeps f =
    let found = (between (record { bits = bit_or eg.bits b })).bits in
    let all : predicate found w true ≡ true =
      (predicate_lem found w small hw).0.1 (λ i k. omega (arith, f i k, keeps i k)) in
    (
      record { bits = bit_and found (bit_not 32 w) },
      ground (arith, all),
      λ i k. bit-bit_and found (bit_not 32 w) i ∙ ap (min (bit found i)) (bit-bit_not 32 w i hw k),
    )
