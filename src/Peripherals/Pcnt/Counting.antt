-- ===== src/Peripherals/Pcnt/Counting.antt =====
-- The count after any number of pulses, between its limits.
use esp32emu.Base.{
  ℕ, zero, suc, ◌+◌, ◌-◌, ◌*◌, ◌%◌, ◌^◌, ◌≤◌, ◌<◌, ◌≡◌, ◌≢◌, ◌⊎◌, ap, ◌∙◌, true, false, List,
  Option, some, arith, leb, ltb, u16, if◌then◌else◌, get_elem?, set, get_elem?-set_self,
  get_elem?-set_ne, lt-length_of_some, Bool-cases, inl, inr,
}
use esp32emu.Base.Esp.{esp_fail, Outcome, done, failed}
use esp32emu.Peripherals.Pcnt.{
  count_inc, count_dec, UnitState, unit_max, counted, limited, pulse, pulses, on_unit,
  inject_pulses, pcnt_get_counter_value, count_of, pcnt_counter_clear,
}

one_more : (k p : ℕ) → (k + 1) * p ≡ k * p + p
one_more k p = grind arith

-- A unit whose place moves on by one with each pulse, and back to 0 from `m - 1`.
module _ (At : ℕ → UnitState → Type 0) (m : ℕ)
    (on : (d : ℕ) (u : UnitState) → At d u → d + 1 < m → At (d + 1) (pulse u))
    (back : (d : ℕ) (u : UnitState) → At d u → d + 1 ≡ m → At 0 (pulse u)) where
  wheel :
      (n d : ℕ) (u : UnitState)
      → d < m
      → At d u
      → (k : ℕ) × (d' : ℕ) × (d' < m) × At d' (pulses n u) × (k * m + d' ≡ d + n)
  unfolding pulses
  wheel zero d u h a = (0, d, h, a, omega arith)
  wheel (suc n) d u h a = elim (Bool-cases (ltb (d + 1) m)) [
    | inl e ↦
        let (k, d', h', a', sum) =
          wheel n (d + 1) (pulse u) (ground arith) (on d u a (ground arith)) in
        (k, d', h', a', omega (arith, sum))
    | inr e ↦
        let at : d + 1 ≡ m = ground arith in
        let (k, d', h', a', sum) = wheel n 0 (pulse u) (omega arith) (back d u a at) in
        (k + 1, d', h', a', omega (arith, sum, one_more k m))
  ]

-- A unit that counts up below its upper limit `h`, its lower limit 0 (none) or negative; `d` pulses
-- above 0.
pub record Rising (h d : ℕ) (u : UnitState) : Type 0 where
  pub mode : u.pos_mode ≡ count_inc
  pub high : u.h_lim ≡ h
  pub low : (u.l_lim ≡ 0) ⊎ (2 ^ 15 ≤ u.l_lim)
  pub low_word : u.l_lim < 2 ^ 16
  pub place : u.count ≡ d
  pub positive : h < 2 ^ 15

-- A unit that counts down above its lower limit `-m`, its upper limit 0 (none) or positive; `d` pulses
-- below 0.
pub record Falling (m d : ℕ) (u : UnitState) : Type 0 where
  pub mode : u.pos_mode ≡ count_dec
  pub low : u.l_lim ≡ 2 ^ 16 - m
  pub high : u.h_lim < 2 ^ 15
  pub place : u.count ≡ (2 ^ 16 - d) % 2 ^ 16
  pub word : m ≤ 2 ^ 15

-- The tests on the limits, for a count between them and for one that reaches one of them.
limited_inside :
    (h l c : ℕ) → h < 2 ^ 15 → (l ≡ 0) ⊎ (2 ^ 15 ≤ l) → l < 2 ^ 16 → c < h → limited h l c ≡ c
unfolding limited
limited_inside h l c small (inl z) word b = ground arith
limited_inside h l c small (inr z) word b = ground arith

limited_top :
    (h l : ℕ) → 0 < h → h < 2 ^ 15 → (l ≡ 0) ⊎ (2 ^ 15 ≤ l) → l < 2 ^ 16 → limited h l h ≡ 0
unfolding limited
limited_top h l pos small (inl z) word = ground arith
limited_top h l pos small (inr z) word = ground arith

limited_above :
    (h m d : ℕ)
    → h < 2 ^ 15
    → m ≤ 2 ^ 15
    → 0 < d
    → d < m
    → limited h (2 ^ 16 - m) (2 ^ 16 - d) ≡ 2 ^ 16 - d
unfolding limited
limited_above h m d small word pos b = ground arith

limited_bottom :
    (h m : ℕ) → h < 2 ^ 15 → m ≤ 2 ^ 15 → 0 < m → limited h (2 ^ 16 - m) (2 ^ 16 - m) ≡ 0
unfolding limited
limited_bottom h m small word pos = ground arith

upward_to :
    (h d e : ℕ) (u : UnitState)
    → Rising h d u
    → limited h u.l_lim (u16 (d + 1)) ≡ e
    → Rising h e (pulse u)
unfolding pulse counted
upward_to h d e u r f = record {
  mode = r.mode;
  high = r.high;
  low = r.low;
  low_word = r.low_word;
  place =
      ap (λ q. limited u.h_lim u.l_lim (counted q u.count)) r.mode
      ∙ ap (λ q. limited q u.l_lim (u16 (u.count + 1))) r.high
      ∙ ap (λ q. limited h u.l_lim (u16 (q + 1))) r.place
      ∙ f;
  positive = r.positive;
}

upward_one : (h d : ℕ) (u : UnitState) → Rising h d u → d + 1 < h → Rising h (d + 1) (pulse u)
upward_one h d u r l =
    let word : u16 (d + 1) ≡ d + 1 = omega (arith, r.positive) in
    upward_to h d (d + 1) u r
      (ap (limited h u.l_lim) word ∙ limited_inside h u.l_lim (d + 1) r.positive r.low r.low_word l)

upward_wrap : (h d : ℕ) (u : UnitState) → Rising h d u → d + 1 ≡ h → Rising h 0 (pulse u)
upward_wrap h d u r l =
    let word : u16 (d + 1) ≡ h = omega (arith, r.positive) in
    upward_to h d 0 u r (
      ap (limited h u.l_lim) word ∙ limited_top h u.l_lim (omega arith) r.positive r.low r.low_word)

downward_to :
    (m d e : ℕ) (u : UnitState)
    → Falling m d u
    → limited u.h_lim (2 ^ 16 - m) (u16 ((2 ^ 16 - d) % 2 ^ 16 + 2 ^ 16 - 1))
      ≡ (2 ^ 16 - e) % 2 ^ 16
    → Falling m e (pulse u)
unfolding pulse counted
downward_to m d e u r f = record {
  mode = r.mode;
  low = r.low;
  high = r.high;
  place =
      ap (λ q. limited u.h_lim u.l_lim (counted q u.count)) r.mode
      ∙ ap (λ q. limited u.h_lim q (u16 (u.count + 2 ^ 16 - 1))) r.low
      ∙ ap (λ q. limited u.h_lim (2 ^ 16 - m) (u16 (q + 2 ^ 16 - 1))) r.place
      ∙ f;
  word = r.word;
}

downward_one : (m d : ℕ) (u : UnitState) → Falling m d u → d + 1 < m → Falling m (d + 1) (pulse u)
downward_one m d u r l =
    let less : u16 ((2 ^ 16 - d) % 2 ^ 16 + 2 ^ 16 - 1) ≡ 2 ^ 16 - (d + 1) =
      omega (arith, r.word) in
    downward_to m d (d + 1) u r (
      ap (limited u.h_lim (2 ^ 16 - m)) less
      ∙ limited_above u.h_lim m (d + 1) r.high r.word (omega arith) l
      ∙ omega (arith, r.word))

downward_wrap : (m d : ℕ) (u : UnitState) → Falling m d u → d + 1 ≡ m → Falling m 0 (pulse u)
downward_wrap m d u r l =
    let less : u16 ((2 ^ 16 - d) % 2 ^ 16 + 2 ^ 16 - 1) ≡ 2 ^ 16 - m = omega (arith, r.word) in
    downward_to m d 0 u r (
      ap (limited u.h_lim (2 ^ 16 - m)) less
      ∙ limited_bottom u.h_lim m r.high r.word (omega arith)
      ∙ omega arith)

-- A unit that counts up, with no lower limit or a negative one,
-- wraps to 0 at its upper limit `h`: after `n` pulses from count `d` it shows
-- `d + n` less a multiple of `h`, below `h`.
pub counts_up :
    (h d n : ℕ) (u : UnitState)
    → d < h
    → Rising h d u
    → (k : ℕ) × (d' : ℕ) × (d' < h) × ((pulses n u).count ≡ d') × (k * h + d' ≡ d + n)
counts_up h d n u below r =
    let (k, d', low, r', sum) = wheel (Rising h) h (upward_one h) (upward_wrap h) n d u below r in
    (k, d', low, r'.place, sum)

-- A unit that counts down, with no upper limit or a positive one,
-- wraps to 0 at its lower limit `-m`: after `n` pulses from count `-d` it shows
-- the word of `-d'`, where `d'` is `d + n` less a multiple of `m`, below `m`.
pub counts_down :
    (m d n : ℕ) (u : UnitState)
    → d < m
    → Falling m d u
    → (k : ℕ) × (d' : ℕ) × (d' < m)
      × ((pulses n u).count ≡ (2 ^ 16 - d') % 2 ^ 16)
      × (k * m + d' ≡ d + n)
counts_down m d n u below r =
    let (k, d', low, r', sum) =
      wheel (Falling m) m (downward_one m) (downward_wrap m) n d u below r in
    (k, d', low, r'.place, sum)

-- Pulses into a unit of the table are what its counter then shows, and no other unit's; a clear sets it
-- back to 0, and no other.
pub units_apart :
    (units : List UnitState) (i n : ℕ) (u : UnitState)
    → i < unit_max
    → get_elem? units i ≡ some u
    → (units' : List UnitState) × (cleared : List UnitState) × (inject_pulses units i n
        ≡ done units')
      × (pcnt_get_counter_value units' i true ≡ done (pulses n u).count)
      × (pcnt_counter_clear units i ≡ done cleared)
      × (pcnt_get_counter_value cleared i true ≡ done 0)
      × ((j : ℕ)
          → i ≢ j
          → (pcnt_get_counter_value units' j true ≡ pcnt_get_counter_value units j true)
            × (pcnt_get_counter_value cleared j true ≡ pcnt_get_counter_value units j true))
unfolding inject_pulses pcnt_get_counter_value pcnt_counter_clear on_unit count_of
units_apart units i n u small e =
    let inside : leb unit_max i ≡ false = ground arith in
    let at = lt-length_of_some units i e in
    let z : UnitState = record u { count = 0 } in
    (
      set units i (pulses n u),
      set units i z,
      ap (on_unit units i (pulses n)) e,
      rw inside (ap count_of (get_elem?-set_self units i (pulses n u) at)),
      rw inside (ap (on_unit units i (λ v. record v { count = 0 })) e),
      rw inside (ap count_of (get_elem?-set_self units i z at)),
      λ j ne. (
        ap (shown j) (get_elem?-set_ne units i j (pulses n u) ne),
        ap (shown j) (get_elem?-set_ne units i j z ne),
      ),
    )
  where
    shown : ℕ → Option UnitState → Outcome ℕ
    shown j o = if leb unit_max j then failed esp_fail else count_of o
