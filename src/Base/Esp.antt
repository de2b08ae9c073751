-- ===== src/Base/Esp.antt =====
-- `esp_err_t` by the names of its codes (include/esp_err.h and the headers' own lists), and memory
-- blocks that fault outside of their range.
use Prim.Native.Nat.{ℕ, ◌+◌, ◌≤◌, ◌<◌}
use mathlib.Core.Path.{◌≡◌}
use native.Mathlib.Omega.{arith}
use mathlib.Core.List.{List}
use esp32emu.Base.Tests.{leb, le→leb, if◌then◌else◌}
use esp32emu.Base.Lists.{length}
use esp32emu.Base.Bytes.{read_at, write_at}

pub data EspErr : Type 0 where
  esp_ok esp_fail esp_err_no_mem esp_err_invalid_arg esp_err_invalid_state : EspErr
  esp_err_invalid_size esp_err_not_found esp_err_timeout : EspErr
  esp_err_nvs_not_found esp_err_nvs_invalid_handle esp_err_nvs_invalid_name : EspErr

-- What a call on a block of memory comes to: a result, an error code, or an access outside of the
-- block, whose behaviour C++ leaves open.
pub data Outcome {ℓ} (A : Type ℓ) : Type ℓ where
  done : A → Outcome A
  failed : EspErr → Outcome A
  fault : Outcome A

-- `memcpy(dst, block + off, n)`
unfoldable pub copy_out : List ℕ → ℕ → ℕ → Outcome (List ℕ)
copy_out block off n = if leb (off + n) (length block) then done (read_at block off n) else fault

-- `memcpy(block + off, src, size)` for all of `src`: the block afterwards.
unfoldable pub copy_in : List ℕ → ℕ → List ℕ → Outcome (List ℕ)
copy_in block off src =
    if leb (off + length src) (length block) then done (write_at block off src) else fault

-- Inside of its block a copy is made, outside it is a fault.
pub copy_out-done :
    (block : List ℕ) (off n : ℕ)
    → off + n ≤ length block
    → copy_out block off n ≡ done (read_at block off n)
unfolding copy_out
copy_out-done block off n h = rw (le→leb _ _ h)

pub copy_out-fault :
    (block : List ℕ) (off n : ℕ) → length block < off + n → copy_out block off n ≡ fault
unfolding copy_out
copy_out-fault block off n h = ground arith

pub copy_in-done :
    (block : List ℕ) (off : ℕ) (src : List ℕ)
    → off + length src ≤ length block
    → copy_in block off src ≡ done (write_at block off src)
unfolding copy_in
copy_in-done block off src h = rw (le→leb _ _ h)

pub copy_in-fault :
    (block : List ℕ) (off : ℕ) (src : List ℕ)
    → length block < off + length src
    → copy_in block off src ≡ fault
unfolding copy_in
copy_in-fault block off src h = ground arith
