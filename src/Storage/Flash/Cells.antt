-- ===== src/Storage/Flash/Cells.antt =====
-- What the flash's cells hold after a write, and after an erasure and a write.
use esp32emu.Base.{
  ℕ, zero, suc, ◌+◌, ◌^◌, ◌≤◌, ◌<◌, ◌≡◌, ◌≢◌, refl, sym, ap, ◌∙◌, true, false, List, [], ◌∷◌, arith,
  ltb, u32, length, get_or, set, replicate, bit_and, All, length-set, get_or-set_self,
  get_or-set_ne, length-replicate, inl, inr, take, drop,
}
use mathlib.Core.Path.{subst}
use esp32emu.Base.Bits.{bit_ext, bit_and-lt, bit-bit_and, bit-bit_not, bit_zero, bit_le_one}
use esp32emu.Base.Bytes.{read_at, write_at, length-write_at, Apart, length-read_at, read_at-fill_at}
use esp32emu.Base.Esp.{
  esp_err_invalid_size, Outcome, done, failed, fault, copy_out-done, copy_out-fault, copy_in-done,
}
use esp32emu.Storage.Flash.{esp_flash_read, and_loop, esp_flash_write, esp_flash_erase_region}

-- `new` holds, from `at` on, the old bytes masked by those of `src`, and the old bytes elsewhere.
pub record Masked (old : List ℕ) (at : ℕ) (src : List ℕ) (r : Outcome (List ℕ)) : Type 0 where
  pub new : List ℕ
  pub result : r ≡ done new
  pub same_length : length new ≡ length old
  pub inside :
      (j : ℕ)
      → j < length src
      → get_or new (at + j) 0 ≡ bit_and (get_or old (at + j) 0) (get_or src j 0)
  pub outside : (k : ℕ) → Apart k 1 at (length src) → get_or new k 0 ≡ get_or old k 0

-- One byte is masked, and then the others are.
step-Masked :
    (st : List ℕ) (k s : ℕ) (src : List ℕ) (r : Outcome (List ℕ))
    → k < length st
    → Masked (set st k (bit_and (get_or st k 0) s)) (k + 1) src r
    → Masked st k (s ∷ src) r
step-Masked st k s src r h m =
    let v = bit_and (get_or st k 0) s in
    record {
      new = m.new;
      result = m.result;
      same_length = m.same_length ∙ length-set st k v;
      inside = cell;
      outside = λ o a. m.outside o (far o a) ∙ get_or-set_ne st k o v 0 (λ e. differ o a e);
    }
  where
    far : (o : ℕ) → Apart o 1 k (length (s ∷ src)) → Apart o 1 (k + 1) (length src)
    far o (inl a) = inl (omega arith)
    far o (inr a) = inr (omega arith)

    differ : (o : ℕ) → Apart o 1 k (length (s ∷ src)) → k ≢ o
    differ o (inl a) e = absurd (omega arith)
    differ o (inr a) e = absurd (omega arith)

    cell :
        (j : ℕ)
        → j < length (s ∷ src)
        → get_or m.new (k + j) 0 ≡ bit_and (get_or st (k + j) 0) (get_or (s ∷ src) j 0)
    cell zero l =
        let at : k + 0 ≡ k = omega arith in
        rw at
          (m.outside k (inr (omega arith)) ∙ get_or-set_self st k (bit_and (get_or st k 0) s) 0 h)
    cell (suc j) l =
        let at : k + suc j ≡ k + 1 + j = omega arith in
        rw at (
          m.inside j (omega arith)
          ∙ ap (λ x. bit_and x (get_or src j 0))
              (get_or-set_ne st k (k + 1 + j) (bit_and (get_or st k 0) s) 0
                (λ e. absurd (omega arith))))

and_loop-step :
    (st : List ℕ) (address s : ℕ) (src : List ℕ) (i k : ℕ)
    → u32 (address + i) ≡ k
    → k < length st
    → and_loop st address (s ∷ src) i
      ≡ and_loop (set st k (bit_and (get_or st k 0) s)) address src (i + 1)
unfolding and_loop
and_loop-step st address s src i k e h =
    let inb : ltb k (length st) ≡ true = ground arith in
    ap
      (λ q. elim (ltb q (length st)) [
        | true ↦ and_loop (set st q (bit_and (get_or st q 0) s)) address src (i + 1)
        | false ↦ fault
      ])
      e
    ∙ rw inb

and_loop-Masked :
    (address : ℕ) (src st : List ℕ) (i : ℕ)
    → address + i + length src ≤ length st
    → length st < 2 ^ 32
    → Masked st (address + i) src (and_loop st address src i)
unfolding and_loop
and_loop-Masked address [] st i h small = record {
  new = st;
  result = refl;
  same_length = refl;
  inside = λ j k. absurd (omega arith);
  outside = λ k a. refl;
}
and_loop-Masked address (s ∷ src) st i h small =
    let k = address + i in
    let here : u32 k ≡ k = omega arith in
    let st1 = set st k (bit_and (get_or st k 0) s) in
    let l1 = length-set st k (bit_and (get_or st k 0) s) in
    let next : address + (i + 1) ≡ k + 1 = omega arith in
    let r = and_loop-Masked address src st1 (i + 1) (omega arith) (omega arith) in
    rw (and_loop-step st address s src i k here (omega arith)) (
      step-Masked st k s src (and_loop st1 address src (i + 1)) (omega arith)
        (subst (λ n. Masked st1 n src (and_loop st1 address src (i + 1))) next r))

-- A write that ends within the flash masks each byte of its range by
-- the byte written there and leaves every other byte; one whose end is behind the flash, and a number
-- of 32 bits, is refused.
pub flash_write_lem :
    (st : List ℕ) (address : ℕ) (src : List ℕ)
    → length st < 2 ^ 32
    → address + length src < 2 ^ 32
    → (address + length src ≤ length st → Masked st address src (esp_flash_write st address src))
      × (length st < address + length src
          → esp_flash_write st address src ≡ failed esp_err_invalid_size)
unfolding esp_flash_write
flash_write_lem st address src small low = (
  λ within.
      let ok : ltb (length st) (u32 (address + length src)) ≡ false = ground arith in
      rw ok (
        subst (λ n. Masked st n src (and_loop st address src 0)) (omega arith)
          (and_loop-Masked address src st 0 (omega arith) small)),
  λ past. let bad : ltb (length st) (u32 (address + length src)) ≡ true = ground arith in rw bad,
)

get_or-take : (n : ℕ) (d : List ℕ) (j : ℕ) → j < n → get_or (take n d) j 0 ≡ get_or d j 0
get_or-take zero d j h = absurd (omega arith)
get_or-take (suc n) [] j h = refl
get_or-take (suc n) (x ∷ d) zero h = refl
get_or-take (suc n) (x ∷ d) (suc j) h = get_or-take n d j (omega arith)

get_or-drop : (off : ℕ) (d : List ℕ) (j : ℕ) → get_or (drop off d) j 0 ≡ get_or d (off + j) 0
get_or-drop zero d j = let at : 0 + j ≡ j = omega arith in rw at
get_or-drop (suc off) [] j = refl
get_or-drop (suc off) (x ∷ d) j =
    let at : suc off + j ≡ suc (off + j) = omega arith in rw at (get_or-drop off d j)

-- Lists of the same length with the same bytes are the same.
get_or_ext :
    (d r : List ℕ)
    → length d ≡ length r
    → ((j : ℕ) → j < length r → get_or d j 0 ≡ get_or r j 0)
    → d ≡ r
get_or_ext [] [] l e = refl
get_or_ext [] (y ∷ r) l e = absurd (omega arith)
get_or_ext (x ∷ d) [] l e = absurd (omega arith)
get_or_ext (x ∷ d) (y ∷ r) l e =
    ap (λ z. z ∷ d) (e 0 (omega arith))
    ∙ ap (◌∷◌ y) (get_or_ext d r (omega arith) (λ j k. e (suc j) (omega arith)))

get_or-read_at :
    (d : List ℕ) (off n j : ℕ) → j < n → get_or (read_at d off n) j 0 ≡ get_or d (off + j) 0
get_or-read_at d off n j h = get_or-take n (drop off d) j h ∙ get_or-drop off d j

ones_and : (a : ℕ) → a < 2 ^ 8 → bit_and 0xFF a ≡ a
ones_and a h = bit_ext 8 (bit_and 0xFF a) a (bit_and-lt 8 0xFF a (omega arith)) h (λ i k.
    omega
      (arith, bit-bit_and 0xFF a i, bit-bit_not 8 0 i (omega arith) k, bit_zero i, bit_le_one a i))

get_or-replicate : (n j v : ℕ) → j < n → get_or (replicate n v) j 0 ≡ v
get_or-replicate zero j v h = absurd (omega arith)
get_or-replicate (suc n) zero v h = refl
get_or-replicate (suc n) (suc j) v h = get_or-replicate n j v (omega arith)

All-get_or : (xs : List ℕ) (j : ℕ) → All (λ x. x < 2 ^ 8) xs → j < length xs → get_or xs j 0 < 2 ^ 8
All-get_or [] j a h = absurd (omega arith)
All-get_or (x ∷ xs) zero a h = a.0
All-get_or (x ∷ xs) (suc j) a h = All-get_or xs j a.1 (omega arith)

written :
    (st : List ℕ) (address : ℕ) (src : List ℕ) {r : Outcome (List ℕ)}
    (w : Masked (write_at st address (replicate (length src) 0xFF)) address src r)
    → All (λ x. x < 2 ^ 8) src
    → address + length src ≤ length st
    → (j : ℕ) → j < length src
    → get_or (read_at w.new address (length src)) j 0 ≡ get_or src j 0
written st address src w bytes within j k =
    let n = length src in
    let ones : List ℕ = replicate n 0xFF in
    let ln : length ones ≡ n = length-replicate n 0xFF in
    let e = write_at st address ones in
    let blank : get_or e (address + j) 0 ≡ 0xFF =
      sym (get_or-read_at e address n j k)
      ∙ ap (λ q. get_or q j 0) (read_at-fill_at st address 0xFF n within)
      ∙ get_or-replicate n j 0xFF k in
    get_or-read_at w.new address n j k
    ∙ w.inside j k
    ∙ ap (λ x. bit_and x (get_or src j 0)) blank
    ∙ ones_and (get_or src j 0) (All-get_or src j bytes k)

-- Erased memory keeps what is written: after a region within the flash is erased and bytes are
-- written there, a read gives these bytes.
pub erase_write_read :
    (st : List ℕ) (address : ℕ) (src : List ℕ)
    → length st < 2 ^ 32
    → address + length src ≤ length st
    → All (λ x. x < 2 ^ 8) src
    → (e : List ℕ) × (w : List ℕ) × (esp_flash_erase_region st address (length src) ≡ done e)
      × (esp_flash_write e address src ≡ done w)
      × (esp_flash_read w address (length src) ≡ done src)
unfolding esp_flash_erase_region esp_flash_read
erase_write_read st address src small within bytes =
    let n = length src in
    let ones : List ℕ = replicate n 0xFF in
    let ln : length ones ≡ n = length-replicate n 0xFF in
    let e = write_at st address ones in
    let le : length e ≡ length st = length-write_at st address ones in
    let ok : ltb (length st) (u32 (address + n)) ≡ false = ground arith in
    let w = (flash_write_lem e address src (omega arith) (omega arith)).0 (omega arith) in
    let ok' : ltb (length w.new) (u32 (address + n)) ≡ false = ground (arith, le, w.same_length) in
    (
      e,
      w.new,
      rw ok (copy_in-done st address ones (omega arith)),
      w.result,
      rw ok' (
          copy_out-done w.new address n (omega (arith, w.same_length))
          ∙ ap done (
              get_or_ext (read_at w.new address n) src
                (length-read_at w.new address n (omega (arith, w.same_length)))
                (λ j k. written st address src w bytes within j k))),
    )

-- The sum of address and length is a word of 32 bits: where it wraps to at most the
-- size of the flash, a read is let through and
-- leaves the flash's memory.
pub flash_read_wraps :
    (st : List ℕ) (address n : ℕ)
    → length st < 2 ^ 32
    → address < 2 ^ 32
    → n < 2 ^ 32
    → 2 ^ 32 ≤ address + n
    → address + n ≤ 2 ^ 32 + length st
    → esp_flash_read st address n ≡ fault
unfolding esp_flash_read
flash_read_wraps st address n small ha hn wraps low =
    let passes : ltb (length st) (u32 (address + n)) ≡ false = ground arith in
    rw passes (copy_out-fault st address n (omega arith))
