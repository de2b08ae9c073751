-- ===== src/Storage/Partition/Lookup.antt =====
-- `esp_partition_find_first` finds the first partition that fits.
use esp32emu.Base.{
  ℕ, zero, suc, ◌+◌, ◌<◌, ◌≡◌, refl, true, false, List, [], ◌∷◌, Option, none, some, arith,
  get_elem?, Bool-cases, inl, inr, All,
}
use mathlib.Core.Path.{subst}
use esp32emu.Storage.Partition.{
  EspPartition, PartitionStore, fits, find_from, esp_partition_find_first,
}

module _ (t sub : ℕ) (label : Option (List ℕ)) where
  -- What the search over `ps` from index `i` on may return.
  abbrev First : List EspPartition → ℕ → Option ℕ → Type 0
  First ps i none = All (λ p. fits t sub label p ≡ false) ps
  First ps i (some k) =
      (n : ℕ) × (p : EspPartition) × (k ≡ i + n)
      × (get_elem? ps n ≡ some p)
      × (fits t sub label p ≡ true)
      × ((m : ℕ) (q : EspPartition) → m < n → get_elem? ps m ≡ some q → fits t sub label q ≡ false)

  not_yet :
      (p : EspPartition) (ps : List EspPartition) (i : ℕ) (r : Option ℕ)
      → fits t sub label p ≡ false
      → First ps (i + 1) r
      → First (p ∷ ps) i r
  not_yet p ps i none e f = (e, f)
  not_yet p ps i (some k) e (n, q, at, here, good, before) =
      (suc n, q, omega arith, here, good, earlier)
    where
      earlier :
          (m : ℕ) (q : EspPartition)
          → m < suc n
          → get_elem? (p ∷ ps) m ≡ some q
          → fits t sub label q ≡ false
      earlier zero q h g = ground arith
      earlier (suc m) q h g = before m q (omega arith) g

  find_from-First : (ps : List EspPartition) (i : ℕ) → First ps i (find_from t sub label ps i)
  unfolding find_from
  find_from-First [] i = tt
  find_from-First (p ∷ ps) i = elim (Bool-cases (fits t sub label p)) [
    | inl e ↦ rw e (0, p, omega arith, refl, e, λ m q h g. absurd (omega arith))
    | inr e ↦
        rw e (not_yet p ps i (find_from t sub label ps (i + 1)) e (find_from-First ps (i + 1)))
  ]

-- The search for a partition returns the index of one that fits type, subtype and label, before which
-- none does, and finds nothing only if no partition of the table fits.
pub find_first_lem :
    (st : PartitionStore) (t sub : ℕ) (label : Option (List ℕ))
    → (esp_partition_find_first st t sub label ≡ none
        → All (λ p. fits t sub label p ≡ false) st.partitions)
      × ((k : ℕ)
          → esp_partition_find_first st t sub label ≡ some k
          → (p : EspPartition) × (get_elem? st.partitions k ≡ some p)
            × (fits t sub label p ≡ true)
            × ((m : ℕ) (q : EspPartition)
                → m < k
                → get_elem? st.partitions m ≡ some q
                → fits t sub label q ≡ false))
unfolding esp_partition_find_first
find_first_lem st t sub label =
    let f = find_from-First t sub label st.partitions 0 in
    (
      λ e. subst (First t sub label st.partitions 0) e f,
      λ k e.
          let (n, p, at, here, good, before) = subst (First t sub label st.partitions 0) e f in
          let same : n ≡ k = omega arith in
          (
            p,
            subst (λ x. get_elem? st.partitions x ≡ some p) same here,
            good,
            λ m q h g. before m q (omega arith) g,
          ),
    )
