-- ===== src/Storage/Update/Tests.antt =====
-- Runs and instances on an update of three bytes.
use esp32emu.Base.{ℕ, true, false, List, [], ◌∷◌}
use esp32emu.Storage.Update.{UpdateClass}

abbrev idle : UpdateClass
idle = record {
  size_ = 0;
  written = 0;
  command_ = 0;
  error = 0;
  running = false;
  finished = false;
  md5_expected = [];
  buffer = [];
  has_progress = true;
}

abbrev chunks : List (List ℕ)
chunks = (1 ∷ 2 ∷ []) ∷ (3 ∷ []) ∷ []

abbrev other_md5 : List ℕ
other_md5 = b'0' ∷ []
