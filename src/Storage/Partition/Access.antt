-- ===== src/Storage/Partition/Access.antt =====
-- What reads, writes and erasures of a partition do, for every range.
use esp32emu.Base.{
  ℕ, zero, suc, ◌+◌, ◌^◌, ◌≤◌, ◌<◌, ◌≡◌, ◌≢◌, refl, sym, ap, ◌∙◌, true, false, List, [], ◌∷◌,
  Option, none, some, arith, length, get_elem?, set, replicate, get_elem?-set_self,
  get_elem?-set_ne, lt-length_of_some, length-replicate, ltb, add_size,
}
use mathlib.Core.Path.{subst}
use esp32emu.Base.Bytes.{
  read_at, write_at, length-write_at, read_at-write_at, Apart, read_at-write_at-Apart,
}
use esp32emu.Base.Esp.{
  esp_err_invalid_size, Outcome, done, failed, fault, copy_out-done, copy_out-fault, copy_in-done,
}
use esp32emu.Storage.Partition.{
  EspPartition, PartitionStore, esp_partition_read, esp_partition_write, esp_partition_erase_range,
  locate, store_block, write_to, with_block, found,
}

-- Each partition has a block of its size, and sizes are words of 32 bits.
abbrev pub Matches : List EspPartition → List (List ℕ) → Type 0
Matches [] [] = Unit {0}
Matches [] (b ∷ bs) = ⊥
Matches (p ∷ ps) [] = ⊥
Matches (p ∷ ps) (b ∷ bs) = (length b ≡ p.size) × (p.size < 2 ^ 32) × Matches ps bs

pub record IsValid (st : PartitionStore) : Type 0 where
  pub matched : Matches st.partitions st.blocks

block_of :
    (ps : List EspPartition) (bs : List (List ℕ)) (i : ℕ) (p : EspPartition)
    → Matches ps bs
    → get_elem? ps i ≡ some p
    → (b : List ℕ) × (get_elem? bs i ≡ some b) × (length b ≡ p.size) × (p.size < 2 ^ 32)
block_of [] bs i p m e = cc
block_of (q ∷ ps) [] i p m e = absurd m
block_of (q ∷ ps) (b ∷ bs) zero p m e = (b, refl, ground (arith, m.0), ground (arith, m.1))
block_of (q ∷ ps) (b ∷ bs) (suc i) p m e = block_of ps bs i p m.2 e

Matches-set :
    (ps : List EspPartition) (bs : List (List ℕ)) (i : ℕ) (p : EspPartition) (b : List ℕ)
    → Matches ps bs
    → get_elem? ps i ≡ some p
    → length b ≡ p.size
    → Matches ps (set bs i b)
Matches-set [] bs i p b m e l = cc
Matches-set (q ∷ ps) [] i p b m e l = absurd m
Matches-set (q ∷ ps) (c ∷ bs) zero p b m e l = (ground arith, m.1, m.2)
Matches-set (q ∷ ps) (c ∷ bs) (suc i) p b m e l = (m.0, m.1, Matches-set ps bs i p b m.2 e l)

locate-done :
    (st : PartitionStore) (i : ℕ) (p : EspPartition) (b : List ℕ)
    → get_elem? st.partitions i ≡ some p
    → get_elem? st.blocks i ≡ some b
    → locate st i ≡ done (p, b)
unfolding locate
locate-done st i p b e f = ground arith

found-set_ne :
    (bs : List (List ℕ)) (i j : ℕ) (b : List ℕ) (o : Option EspPartition)
    → i ≢ j
    → found (set bs i b) j o ≡ found bs j o
unfolding found
found-set_ne bs i j b none ne = refl
found-set_ne bs i j b (some p) ne = ap (with_block p) (get_elem?-set_ne bs i j b ne)

locate-store_ne :
    (st : PartitionStore) (i j : ℕ) (b : List ℕ)
    → i ≢ j
    → locate (store_block st i b) j ≡ locate st j
unfolding locate store_block
locate-store_ne st i j b ne = found-set_ne st.blocks i j b (get_elem? st.partitions j) ne

-- A read within a partition is the bytes of its block.
read_within :
    (st : PartitionStore) (i : ℕ) (p : EspPartition) (b : List ℕ) (off n : ℕ)
    → locate st i ≡ done (p, b)
    → length b ≡ p.size
    → p.size < 2 ^ 32
    → off + n ≤ p.size
    → esp_partition_read st (some i) off true n ≡ done (read_at b off n)
unfolding esp_partition_read
read_within st i p b off n l same small within =
    let short : ltb p.size (add_size off n) ≡ false = ground arith in
    rw (l, short) (copy_out-done b off n (omega arith))

write_within :
    (st : PartitionStore) (i : ℕ) (p : EspPartition) (b : List ℕ) (off : ℕ) (src : List ℕ)
    → locate st i ≡ done (p, b)
    → length b ≡ p.size
    → p.size < 2 ^ 32
    → off + length src ≤ p.size
    → write_to st i off src ≡ done (store_block st i (write_at b off src))
unfolding write_to
write_within st i p b off src l same small within =
    let short : ltb p.size (add_size off (length src)) ≡ false = ground arith in
    rw (l, short) (rw (copy_in-done b off src (omega arith)))

-- What holds after bytes were put into a range of partition `i` of `st`: they are read there, and
-- every other range of that partition and every read of another one are as before.
pub record Wrote (st : PartitionStore) (i size off : ℕ) (src : List ℕ) (r : Outcome PartitionStore)
    : Type 0 where
  pub after : PartitionStore
  pub result : r ≡ done after
  pub valid : IsValid after
  pub reads_back : esp_partition_read after (some i) off true (length src) ≡ done src
  pub keeps :
      (o n : ℕ)
      → Apart off (length src) o n
      → o + n ≤ size
      → esp_partition_read after (some i) o true n ≡ esp_partition_read st (some i) o true n
  pub spares :
      (j o n : ℕ)
      → i ≢ j
      → esp_partition_read after (some j) o true n ≡ esp_partition_read st (some j) o true n

read_alike :
    (s t : PartitionStore) (j o n : ℕ)
    → locate s j ≡ locate t j
    → esp_partition_read s (some j) o true n ≡ esp_partition_read t (some j) o true n
unfolding esp_partition_read
read_alike s t j o n l = rw l

write_to-Wrote :
    (st : PartitionStore) (i : ℕ) (p : EspPartition) (off : ℕ) (src : List ℕ)
    → IsValid st
    → get_elem? st.partitions i ≡ some p
    → off + length src ≤ p.size
    → Wrote st i p.size off src (write_to st i off src)
unfolding store_block
write_to-Wrote st i p off src v e within =
    let (b, eb, same, small) = block_of st.partitions st.blocks i p v.matched e in
    let b' = write_at b off src in
    let st' = store_block st i b' in
    let same' : length b' ≡ p.size = length-write_at b off src ∙ same in
    let l = locate-done st i p b e eb in
    let l' : locate st' i ≡ done (p, b') =
      locate-done st' i p b' e
        (get_elem?-set_self st.blocks i b' (lt-length_of_some st.blocks i eb)) in
    record {
      after = st';
      result = write_within st i p b off src l same small within;
      valid = record { matched = Matches-set st.partitions st.blocks i p b' v.matched e same' };
      reads_back =
          read_within st' i p b' off (length src) l' same' small within
          ∙ ap done (read_at-write_at b off src (omega arith));
      keeps = λ o n apart inside.
          read_within st' i p b' o n l' same' small inside
          ∙ ap done (read_at-write_at-Apart b off src o n apart)
          ∙ sym (read_within st i p b o n l same small inside);
      spares = λ j o n ne. read_alike st' st j o n (locate-store_ne st i j b' ne);
    }

refused :
    (st : PartitionStore) (i : ℕ) (p : EspPartition) (b : List ℕ) (off : ℕ) (src : List ℕ)
    → locate st i ≡ done (p, b)
    → off + length src < 2 ^ 64
    → p.size < off + length src
    → write_to st i off src ≡ failed esp_err_invalid_size
unfolding write_to
refused st i p b off src l h past =
    let short : ltb p.size (add_size off (length src)) ≡ true = ground arith in rw (l, short)

wrapped :
    (st : PartitionStore) (i : ℕ) (p : EspPartition) (b : List ℕ) (off n : ℕ)
    → locate st i ≡ done (p, b)
    → length b ≡ p.size
    → p.size < 2 ^ 32
    → off < 2 ^ 64
    → n < 2 ^ 64
    → 2 ^ 64 ≤ off + n
    → off + n ≤ 2 ^ 64 + p.size
    → esp_partition_read st (some i) off true n ≡ fault
unfolding esp_partition_read
wrapped st i p b off n l same small ho hn wraps low =
    let passes : ltb p.size (add_size off n) ≡ false = ground arith in
    rw (l, passes) (copy_out-fault b off n (omega arith))

erase_range-write_to :
    (st : PartitionStore) (i off n : ℕ)
    → esp_partition_erase_range st (some i) off n ≡ write_to st i off (replicate n 0xFF)
unfolding esp_partition_erase_range write_to
erase_range-write_to st i off n = rw (length-replicate {A = ℕ} n 0xFF)

-- A write to a range within a partition of a valid store succeeds,
-- is read back, and leaves every other range of the
-- partition and every other partition as they read before; a write past its end, whose end is a
-- number of 64 bits, is refused as of invalid size.
pub partition_write_lem :
    (st : PartitionStore) (i : ℕ) (p : EspPartition) (off : ℕ) (src : List ℕ)
    → IsValid st
    → get_elem? st.partitions i ≡ some p
    → off + length src < 2 ^ 64
    → (off + length src ≤ p.size
        → Wrote st i p.size off src (esp_partition_write st (some i) off (some src)))
      × (p.size < off + length src
          → esp_partition_write st (some i) off (some src) ≡ failed esp_err_invalid_size)
unfolding esp_partition_write
partition_write_lem st i p off src v e h = (
  λ within. write_to-Wrote st i p off src v e within,
  λ past.
      let (b, eb, same, small) = block_of st.partitions st.blocks i p v.matched e in
      refused st i p b off src (locate-done st i p b e eb) h past,
)

-- An erasure of a range within a partition of a valid store succeeds, makes it read as bytes 0xFF, and leaves every
-- other range of the partition and every other partition as they read before.
pub partition_erase_lem :
    (st : PartitionStore) (i : ℕ) (p : EspPartition) (off n : ℕ)
    → IsValid st
    → get_elem? st.partitions i ≡ some p
    → off + n ≤ p.size
    → Wrote st i p.size off (replicate n 0xFF) (esp_partition_erase_range st (some i) off n)
partition_erase_lem st i p off n v e h =
    let l : length (replicate {A = ℕ} n 0xFF) ≡ n = length-replicate {A = ℕ} n 0xFF in
    subst (Wrote st i p.size off (replicate n 0xFF)) (sym (erase_range-write_to st i off n))
      (write_to-Wrote st i p off (replicate n 0xFF) v e (omega arith))

-- The bound check adds in 64 bits: where the sum of offset and size wraps to at most the partition's
-- size, a read of a valid store is not refused and leaves the partition's memory.
pub partition_read_wraps :
    (st : PartitionStore) (i : ℕ) (p : EspPartition) (off n : ℕ)
    → IsValid st
    → get_elem? st.partitions i ≡ some p
    → off < 2 ^ 64
    → n < 2 ^ 64
    → 2 ^ 64 ≤ off + n
    → off + n ≤ 2 ^ 64 + p.size
    → esp_partition_read st (some i) off true n ≡ fault
partition_read_wraps st i p off n v e ho hn wraps low =
    let (b, eb, same, small) = block_of st.partitions st.blocks i p v.matched e in
    wrapped st i p b off n (locate-done st i p b e eb) same small ho hn wraps low
