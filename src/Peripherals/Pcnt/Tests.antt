-- ===== src/Peripherals/Pcnt/Tests.antt =====
-- Runs and instances on a unit that counts up to 5 and one that counts down to -5.
use esp32emu.Base.{ℕ, ◌+◌, ◌*◌, ◌<◌, ◌≡◌, refl, inl, true, false, List, [], ◌∷◌, arith}
use esp32emu.Peripherals.Pcnt.{count_inc, count_dec, count_dis, UnitState, pulses}
use esp32emu.Peripherals.Pcnt.Counting.{counts_up}

abbrev up_unit : UnitState
up_unit = record {
  configured = true;
  filter_enabled = false;
  filter_value = 0;
  count = 3;
  h_lim = 5;
  l_lim = 0;
  pos_mode = count_inc;
  neg_mode = count_dis;
}

-- The limit -5 as a word.
abbrev down_unit : UnitState
down_unit = record up_unit { count = 0; h_lim = 0; l_lim = 65531; pos_mode = count_dec }

four_more : (pulses 4 up_unit).count ≡ 2
unfolding pulses
four_more = refl

counts_up_example :
    (k : ℕ) × (d' : ℕ) × (d' < 5) × ((pulses 4 up_unit).count ≡ d') × (k * 5 + d' ≡ 3 + 4)
counts_up_example = counts_up 5 3 4 up_unit (omega arith) record {
  mode = refl;
  high = refl;
  low = inl refl;
  low_word = omega arith;
  place = refl;
  positive = omega arith;
}

abbrev table : List UnitState
table = up_unit ∷ down_unit ∷ up_unit ∷ down_unit ∷ []
