-- ===== src/Storage/WearLevelling/Handles.antt =====
-- What a mounted handle gives: fresh memory of its own, that keeps what is written.
use esp32emu.Base.{
  ◌==◌, ℕ, ◌+◌, ◌^◌, ◌≤◌, ◌<◌, ◌≡◌, ◌≢◌, refl, sym, ap, ◌∙◌, true, false, List, some, arith, ltb,
  add_size, length, replicate, lookup, insert, lookup-insert_self, lookup-insert_ne,
  lookup-erase_self, lookup-erase_ne, take_of_length-le, nat_key, Option-cases, inl, inr,
  length-replicate,
}
use mathlib.Core.Path.{subst}
use esp32emu.Base.Bytes.{
  read_at, write_at, length-write_at, read_at-write_at, Apart, read_at-write_at-Apart,
}
use esp32emu.Base.Esp.{
  esp_fail, esp_err_invalid_arg, Outcome, done, failed, copy_out-done, copy_in-done,
}
use esp32emu.Storage.WearLevelling.{
  WlPartition, WlState, wl_next_handle, wl_mount, wl_unmount, read_part, wl_read, put_block,
  erase_part, write_part, wl_write, wl_erase_range, wl_size, wl_sector_size,
}

-- Partition `p` is mounted under `h`, with a block of its size.
pub record Mounted (st : WlState) (h : ℕ) (p : WlPartition) : Type 0 where
  pub here : lookup h st.partitions ≡ some p
  pub sized : length p.block ≡ p.size
  pub small : p.size < 2 ^ 63

read_inside :
    (p : WlPartition) (a n : ℕ)
    → length p.block ≡ p.size
    → p.size < 2 ^ 63
    → a + n ≤ p.size
    → read_part (some p) a n ≡ done (read_at p.block a n)
unfolding read_part
read_inside p a n same small h =
    let short : ltb p.size (add_size a n) ≡ false = ground arith in
    rw short (copy_out-done p.block a n (omega arith))

write_inside :
    (st : WlState) (h : ℕ) (p : WlPartition) (a : ℕ) (src : List ℕ)
    → Mounted st h p
    → a + length src ≤ p.size
    → write_part st h (some p) a src
      ≡ done (record st {
        partitions = insert h (record p { block = write_at p.block a src }) st.partitions;
      })
unfolding write_part
write_inside st h p a src m within =
    let short : ltb p.size (add_size a (length src)) ≡ false = ground (arith, m.small) in
    rw short (ap (put_block st h p) (copy_in-done p.block a src (omega (arith, m.sized))))

write_outside :
    (st : WlState) (h : ℕ) (p : WlPartition) (a : ℕ) (src : List ℕ)
    → a + length src < 2 ^ 64
    → p.size < a + length src
    → write_part st h (some p) a src ≡ failed esp_err_invalid_arg
unfolding write_part
write_outside st h p a src bound past =
    let long : ltb p.size (add_size a (length src)) ≡ true = ground arith in rw long

-- A mount gives the next handle, while these fit 31 bits: a partition of that size and sector size, every range of which reads
-- as bytes 0xFF. The other handles keep theirs.
pub mount_lem :
    (st : WlState) (size sector : ℕ)
    → size < 2 ^ 63
    → st.next_handle < 0x7FFFFFFF
    → (st' : WlState) × (wl_mount st true size sector ≡ done (st', st.next_handle))
      × (st'.next_handle ≡ st.next_handle + 1)
      × (wl_size st' st.next_handle ≡ size)
      × (wl_sector_size st' st.next_handle ≡ sector)
      × (wl_read st' st.next_handle 0 size ≡ done (replicate size 0xFF))
      × ((h a n : ℕ) → h ≢ st.next_handle → wl_read st' h a n ≡ wl_read st h a n)
unfolding wl_mount wl_next_handle wl_size wl_sector_size wl_read
mount_lem st size sector h room =
    let more : (st.next_handle == 0x7FFFFFFF) ≡ false = ground arith in
    let fresh : WlPartition = record {
      block = replicate size 0xFF;
      sector_size = sector;
      size = size;
    } in
    let here = lookup-insert_self st.next_handle fresh st.partitions in
    (
      record {
        partitions = insert st.next_handle fresh st.partitions;
        next_handle = st.next_handle + 1;
      },
      rw (wl_mount, wl_next_handle, more) refl,
      refl,
      rw (here, wl_size),
      rw (here, wl_sector_size),
      ap (λ p. read_part p 0 size) here
          ∙ read_inside fresh 0 size (length-replicate {A = ℕ} size 0xFF) h (omega arith)
          ∙ ap done (
              take_of_length-le size (replicate size 0xFF)
                (omega (arith, length-replicate {A = ℕ} size 0xFF))),
      λ k a n ne.
          ap (λ p. read_part p a n)
            (lookup-insert_ne st.next_handle k fresh st.partitions (λ e. ne (sym e))),
    )

-- What holds after bytes were put into a range of a mounted partition: the handle stays mounted with
-- its sizes, the bytes are read there, other ranges and other handles read as before.
pub record Kept (st : WlState) (h : ℕ) (p : WlPartition) (addr : ℕ) (src : List ℕ)
    (r : Outcome WlState) : Type 0 where
  pub after : WlState
  pub part : WlPartition
  pub result : r ≡ done after
  pub mounted : Mounted after h part
  pub same_sizes : (part.size ≡ p.size) × (part.sector_size ≡ p.sector_size)
  pub reads_back : wl_read after h addr (length src) ≡ done src
  pub keeps :
      (o n : ℕ)
      → Apart addr (length src) o n
      → o + n ≤ p.size
      → wl_read after h o n ≡ wl_read st h o n
  pub spares : (j o n : ℕ) → h ≢ j → wl_read after j o n ≡ wl_read st j o n

-- A write within a mounted partition succeeds and is kept; one past its end, whose end is a number of
-- 64 bits, is an invalid argument.
pub wl_write_lem :
    (st : WlState) (h : ℕ) (p : WlPartition) (addr : ℕ) (src : List ℕ)
    → Mounted st h p
    → addr + length src < 2 ^ 64
    → (addr + length src ≤ p.size → Kept st h p addr src (wl_write st h addr src))
      × (p.size < addr + length src → wl_write st h addr src ≡ failed esp_err_invalid_arg)
unfolding wl_write wl_read
wl_write_lem st h p addr src m bound =
    let b' = write_at p.block addr src in
    let p' : WlPartition = record p { block = b' } in
    let st' : WlState = record st { partitions = insert h p' st.partitions } in
    let here' = lookup-insert_self h p' st.partitions in
    let sized' : length b' ≡ p.size = length-write_at p.block addr src ∙ m.sized in
    (
      λ within. record {
        after = st';
        part = p';
        result =
            ap (λ q. write_part st h q addr src) m.here ∙ write_inside st h p addr src m within;
        mounted = record { here = here'; sized = sized'; small = m.small };
        same_sizes = (refl, refl);
        reads_back =
            ap (λ q. read_part q addr (length src)) here'
            ∙ read_inside p' addr (length src) sized' m.small within
            ∙ ap done (read_at-write_at p.block addr src (omega (arith, m.sized)));
        keeps = λ o n apart inside.
            ap (λ q. read_part q o n) here'
            ∙ read_inside p' o n sized' m.small inside
            ∙ ap done (read_at-write_at-Apart p.block addr src o n apart)
            ∙ sym (read_inside p o n m.sized m.small inside)
            ∙ sym (ap (λ q. read_part q o n) m.here);
        spares = λ j o n ne. ap (λ q. read_part q o n) (lookup-insert_ne h j p' st.partitions ne);
      },
      λ past.
          ap (λ q. write_part st h q addr src) m.here ∙ write_outside st h p addr src bound past,
    )

erase_range-write :
    (st : WlState) (h addr n : ℕ)
    → wl_erase_range st h addr n ≡ wl_write st h addr (replicate n 0xFF)
unfolding wl_erase_range wl_write erase_part write_part
erase_range-write st h addr n = elim (Option-cases (lookup h st.partitions)) [
  | inl e ↦ rw e
  | inr (p, e) ↦ rw (e, length-replicate {A = ℕ} n 0xFF)
]

-- An erasure of a range within a mounted partition succeeds and makes it read as bytes 0xFF.
pub wl_erase_lem :
    (st : WlState) (h : ℕ) (p : WlPartition) (addr n : ℕ)
    → Mounted st h p
    → addr + n ≤ p.size
    → Kept st h p addr (replicate n 0xFF) (wl_erase_range st h addr n)
wl_erase_lem st h p addr n m within =
    let l : length (replicate {A = ℕ} n 0xFF) ≡ n = length-replicate {A = ℕ} n 0xFF in
    subst (Kept st h p addr (replicate n 0xFF)) (sym (erase_range-write st h addr n)) (
      (wl_write_lem st h p addr (replicate n 0xFF) m (omega (arith, m.small, l))).0
        (omega (arith, l)))

-- After an unmount the handle reads nothing, has no size, and the others are as before.
pub unmount_lem :
    (st : WlState) (h : ℕ)
    → ((a n : ℕ) → wl_read (wl_unmount st h) h a n ≡ failed esp_fail)
      × ((a : ℕ) (src : List ℕ) → wl_write (wl_unmount st h) h a src ≡ failed esp_fail)
      × (wl_size (wl_unmount st h) h ≡ 0)
      × ((j a n : ℕ) → h ≢ j → wl_read (wl_unmount st h) j a n ≡ wl_read st j a n)
unfolding wl_unmount wl_read wl_write wl_size read_part write_part
unmount_lem st h =
    let gone = lookup-erase_self h st.partitions in
    (
      λ a n. ap (λ q. read_part q a n) gone,
      λ a src. ap (λ q. write_part (wl_unmount st h) h q a src) gone,
      rw (gone, wl_size),
      λ j a n ne. ap (λ q. read_part q a n) (lookup-erase_ne h j st.partitions ne),
    )
