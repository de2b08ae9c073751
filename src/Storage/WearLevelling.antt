-- ===== src/Storage/WearLevelling.antt =====
-- include/esp_wear_levelling.h: memory-backed partitions under handles. The counter of handles is
-- part of the state.
pub mod Handles
mod Tests
use esp32emu.Base.{
  ℕ, ◌+◌, Bool, true, false, List, [], ◌∷◌, Option, none, some, ltb, ◌==◌, add_size, if◌then◌else◌,
  length, replicate, lookup, insert, erase, nat_key,
}
use esp32emu.Base.Esp.{
  EspErr, esp_fail, esp_err_invalid_arg, Outcome, done, failed, fault, copy_out, copy_in,
}

-- `_wl_partition`
pub record WlPartition : Type 0 where
  pub block : List ℕ
  pub sector_size : ℕ
  pub size : ℕ

pub record WlState : Type 0 where
  pub partitions : List (ℕ × WlPartition)
  pub next_handle : ℕ

-- `h++` on an `int32_t` from 0 on: at its largest number C++ leaves open what comes.
pub wl_next_handle : WlState → Outcome (WlState × ℕ)
wl_next_handle st =
    if st.next_handle == 0x7FFFFFFF
    then fault
    else done (record st { next_handle = st.next_handle + 1 }, st.next_handle)

-- The state and the handle that goes to `*out_handle`, which `has_out` says is no null pointer.
pub wl_mount : WlState → Bool → ℕ → ℕ → Outcome (WlState × ℕ)
unfolding wl_next_handle
wl_mount st false size sector_size = failed esp_err_invalid_arg
wl_mount st true size sector_size = elim (wl_next_handle st) [
  | done (st', h) ↦
      let fresh : WlPartition = record {
        block = replicate size 0xFF;
        sector_size = sector_size;
        size = size;
      } in
      done (record st' { partitions = insert h fresh st'.partitions }, h)
  | failed e ↦ failed e
  | fault ↦ fault
]

pub wl_unmount : WlState → ℕ → WlState
wl_unmount st handle = record st { partitions = erase handle st.partitions }

read_part : Option WlPartition → ℕ → ℕ → Outcome (List ℕ)
read_part none addr size = failed esp_fail
read_part (some p) addr size =
    if ltb p.size (add_size addr size)
    then failed esp_err_invalid_arg
    else copy_out p.block addr size

pub wl_read : WlState → ℕ → ℕ → ℕ → Outcome (List ℕ)
unfolding read_part
wl_read st handle addr size = read_part (lookup handle st.partitions) addr size

put_block : WlState → ℕ → WlPartition → Outcome (List ℕ) → Outcome WlState
put_block st handle p (done b) =
    done (record st { partitions = insert handle (record p { block = b }) st.partitions })
put_block st handle p (failed e) = failed e
put_block st handle p fault = fault

write_part : WlState → ℕ → Option WlPartition → ℕ → List ℕ → Outcome WlState
unfolding put_block
write_part st handle none addr src = failed esp_fail
write_part st handle (some p) addr src =
    if ltb p.size (add_size addr (length src))
    then failed esp_err_invalid_arg
    else put_block st handle p (copy_in p.block addr src)

-- `src` is what the pointer gives, all `size` bytes.
pub wl_write : WlState → ℕ → ℕ → List ℕ → Outcome WlState
unfolding write_part
wl_write st handle addr src = write_part st handle (lookup handle st.partitions) addr src

erase_part : WlState → ℕ → Option WlPartition → ℕ → ℕ → Outcome WlState
unfolding put_block
erase_part st handle none addr size = failed esp_fail
erase_part st handle (some p) addr size =
    if ltb p.size (add_size addr size)
    then failed esp_err_invalid_arg
    else put_block st handle p (copy_in p.block addr (replicate size 0xFF))

pub wl_erase_range : WlState → ℕ → ℕ → ℕ → Outcome WlState
unfolding erase_part
wl_erase_range st handle addr size = erase_part st handle (lookup handle st.partitions) addr size

pub wl_size : WlState → ℕ → ℕ
wl_size st handle = elim (lookup handle st.partitions) [ none ↦ 0 | some p ↦ p.size ]

pub wl_sector_size : WlState → ℕ → ℕ
wl_sector_size st handle = elim (lookup handle st.partitions) [ none ↦ 0 | some p ↦ p.sector_size ]
