-- ===== src/Storage/Eeprom/Cells.antt =====
-- What is put is what is got.
use esp32emu.Base.{ℕ, ◌+◌, ◌^◌, ◌≤◌, ◌<◌, ◌≡◌, sym, ap, ◌∙◌, true, false, List, arith, length}
use esp32emu.Base.Bytes.{
  read_at, write_at, length-write_at, read_at-write_at, Apart, read_at-write_at-Apart,
}
use esp32emu.Base.Esp.{done}
use esp32emu.Storage.Eeprom.{fits, get, put, size}

fits_inside :
    (cells : List ℕ) (addr n : ℕ)
    → length cells < 2 ^ 31
    → addr + n ≤ length cells
    → fits cells addr n ≡ done true
unfolding fits
fits_inside cells addr n small h = ground arith

fits_outside :
    (cells : List ℕ) (addr n : ℕ)
    → length cells < 2 ^ 31
    → addr + n < 2 ^ 31
    → length cells < addr + n
    → fits cells addr n ≡ done false
unfolding fits
fits_outside cells addr n small low h = ground arith

get_inside :
    (cells : List ℕ) (addr : ℕ) (t : List ℕ)
    → length cells < 2 ^ 31
    → addr + length t ≤ length cells
    → get cells addr t ≡ done (read_at cells addr (length t))
unfolding get
get_inside cells addr t small h = rw (get, fits_inside cells addr (length t) small h)

-- In a memory of fewer than 2^31 bytes a value put within it is what a get of that size there gives, whatever the variable held; a
-- get of a range apart gives what it gave before. A put past the end, whose end
-- is an `int`, changes nothing.
pub put-get :
    (cells : List ℕ) (addr : ℕ) (t old : List ℕ)
    → size cells < 2 ^ 31
    → addr + length t < 2 ^ 31
    → length old ≡ length t
    → (addr + length t ≤ size cells
        → (after : List ℕ) × (put cells addr t ≡ done after)
          × (size after ≡ size cells)
          × (get after addr old ≡ done t)
          × ((o : ℕ) (v : List ℕ)
              → Apart addr (length t) o (length v)
              → o + length v ≤ size cells
              → get after o v ≡ get cells o v))
      × (size cells < addr + length t → put cells addr t ≡ done cells)
unfolding put size
put-get cells addr t old small low same = (
  λ h.
      let after = write_at cells addr t in
      let l = length-write_at cells addr t in
      (
        after,
        rw (put, fits_inside cells addr (length t) small h),
        l,
        get_inside after addr old (omega (arith, l)) (omega (arith, l))
            ∙ ap (λ n. done (read_at after addr n)) same
            ∙ ap done (read_at-write_at cells addr t h),
        λ o v apart inside.
            get_inside after o v (omega (arith, l)) (omega (arith, l))
            ∙ ap done (read_at-write_at-Apart cells addr t o (length v) apart)
            ∙ sym (get_inside cells o v small inside),
      ),
  λ past. rw (put, fits_outside cells addr (length t) small low past),
)
