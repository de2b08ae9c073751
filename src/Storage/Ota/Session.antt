-- ===== src/Storage/Ota/Session.antt =====
-- A whole update over the air, and the partition that is chosen for it.
use esp32emu.Base.{
  ℕ, ◌+◌, ◌≡◌, refl, sym, ap, ◌∙◌, true, false, not, List, [], ◌∷◌, ◌++◌, append-nil, append_assoc,
  none, some, u32, if◌then◌else◌, get_elem?,
}
use esp32emu.Base.Esp.{esp_fail, Outcome, done, failed, fault}
use esp32emu.Storage.Partition.{
  EspPartition, PartitionStore, type_app, fits, esp_partition_find_first,
}
use esp32emu.Storage.Partition.Lookup.{find_first_lem}
use esp32emu.Storage.Ota.{
  OtaState, esp_ota_begin, esp_ota_write, esp_ota_end, esp_ota_set_boot_partition,
  esp_ota_get_boot_partition, esp_ota_get_next_update_partition,
}

unfoldable pub joined : List (List ℕ) → List ℕ
joined [] = []
joined (c ∷ cs) = c ++ joined cs

-- Writes one after the other, up to the first that fails.
pub writes : OtaState → List (List ℕ) → Outcome OtaState
writes s [] = done s
writes s (c ∷ cs) = elim (esp_ota_write s c) [
  | done s' ↦ writes s' cs
  | failed e ↦ failed e
  | fault ↦ fault
]

write_on :
    (s : OtaState) (c : List ℕ)
    → s.in_progress ≡ true
    → esp_ota_write s c ≡ done (record s { written_data = s.written_data ++ c })
unfolding esp_ota_write
write_on s c on =
    ap
      (λ b.
        if not b then failed esp_fail else done (record s { written_data = s.written_data ++ c }))
      on

writes_lem :
    (s : OtaState) (cs : List (List ℕ))
    → s.in_progress ≡ true
    → writes s cs ≡ done (record s { written_data = s.written_data ++ joined cs })
unfolding writes joined
writes_lem s [] on =
    ap (λ b. done (record s { written_data = b })) (sym (append-nil s.written_data))
writes_lem s (c ∷ cs) on =
    let s1 : OtaState = record s { written_data = s.written_data ++ c } in
    ap (λ o. elim o [ done s' ↦ writes s' cs | failed e ↦ failed e | fault ↦ fault ])
      (write_on s c on)
    ∙ writes_lem s1 cs on
    ∙ ap (λ b. done (record s { written_data = b })) (append_assoc s.written_data c (joined cs))

-- An update that begins on a partition gives the next handle,
-- takes every write, holds them in order, and ends; afterwards writes and a second end fail.
pub ota_session :
    (s : OtaState) (p : ℕ) (cs : List (List ℕ))
    → (s1 : OtaState) × (s2 : OtaState) × (s3 : OtaState) × (esp_ota_begin s (some p) true
        ≡ done (s1, s.handle_counter))
      × (writes s1 cs ≡ done s2)
      × (s2.written_data ≡ joined cs)
      × (s2.target ≡ some p)
      × (esp_ota_end s2 ≡ done s3)
      × ((bytes : List ℕ) → esp_ota_write s3 bytes ≡ failed esp_fail)
      × (esp_ota_end s3 ≡ failed esp_fail)
unfolding esp_ota_begin esp_ota_end esp_ota_write
ota_session s p cs =
    let s1 : OtaState = record s {
      in_progress = true;
      target = some p;
      written_data = [];
      handle_counter = u32 (s.handle_counter + 1);
    } in
    let s2 : OtaState = record s1 { written_data = joined cs } in
    (
      s1,
      s2,
      record s2 { in_progress = false },
      refl,
      writes_lem s1 cs refl,
      refl,
      refl,
      refl,
      λ bytes. refl,
      refl,
    )

-- The next partition for an update is an application's of the first OTA slot if the table has one; it
-- becomes the boot partition when it is set so.
pub next_boots :
    (table : PartitionStore) (s : OtaState) (p : ℕ)
    → esp_partition_find_first table type_app 0x10 none ≡ some p
    → (esp_ota_get_next_update_partition table ≡ some p)
      × (q : EspPartition) × (get_elem? table.partitions p ≡ some q)
      × (fits type_app 0x10 none q ≡ true)
      × (s' : OtaState) × (esp_ota_set_boot_partition s (some p) ≡ done s')
      × (esp_ota_get_boot_partition table s' ≡ some p)
unfolding esp_ota_get_next_update_partition esp_ota_set_boot_partition esp_ota_get_boot_partition
next_boots table s p e =
    let (q, here, good, before) = (find_first_lem table type_app 0x10 none).1 p e in
    (
      ap
          (λ o. elim o [
            | some r ↦ some r
            | none ↦ esp_partition_find_first table type_app 0x11 none
          ])
          e,
      q,
      here,
      good,
      record s { boot_partition = some p; set_boot_called = true },
      refl,
      refl,
    )
