-- ===== src/Storage/Update/Session.antt =====
-- A whole update: begin, any writes, end.
use esp32emu.Base.{
  ℕ, ◌≡◌, ◌≢◌, refl, Bool, true, false, List, [], ◌∷◌, ◌++◌, some, arith, str_eq, str_eq_iff,
  Bool-cases, inl, inr,
}
use esp32emu.Storage.Update.{
  UpdateClass, update_error_write, update_error_md5, begin, write, md5_string, is_empty, fail, end_,
  abort, is_running, get_error, set_md5, can_roll_back, get_buffer,
}

unfoldable pub concat : List (List ℕ) → List ℕ
concat [] = []
concat (c ∷ cs) = c ++ concat cs

-- Writes one after the other.
pub writes : UpdateClass → List (List ℕ) → UpdateClass
writes u [] = u
writes u (c ∷ cs) = writes (write u c).0 cs

put : UpdateClass → List ℕ → ℕ → UpdateClass
put u b n = record u { buffer = b; written = n }

-- While no update runs, a write takes nothing and sets the write error, and the end gives false; so it
-- is after an abort, which also drops what was collected.
pub stopped :
    (u : UpdateClass) (bytes : List ℕ) (force : Bool)
    → (is_running u ≡ false
        → ((write u bytes).1 ≡ 0)
          × (get_error (write u bytes).0 ≡ update_error_write)
          × (get_buffer (write u bytes).0 ≡ get_buffer u)
          × (end_ u force ≡ (u, false)))
      × (is_running (abort u) ≡ false)
      × (get_buffer (abort u) ≡ [])
unfolding is_running write get_error get_buffer end_ abort
stopped u bytes force = (λ e. (rw e, ground arith, ground arith, rw e), refl, refl)

-- An update whose expected MD5 is neither empty nor the one that the mock always computes does not end
-- well, whatever was written and even if its size is not asked for.
pub md5_mismatch :
    (u : UpdateClass) (n command : ℕ) (m : List ℕ)
    → m ≢ []
    → m ≢ md5_string
    → (bytes : List ℕ)
    → let v = (write (set_md5 (begin u n command) (some m)) bytes).0 in
      ((end_ v true).1 ≡ false)
      × (get_error (end_ v true).0 ≡ update_error_md5)
      × (can_roll_back (end_ v true).0 ≡ false)
unfolding begin set_md5 write end_ fail is_empty get_error can_roll_back
md5_mismatch u n command [] filled other bytes = absurd (filled refl)
md5_mismatch u n command (x ∷ m) filled other bytes =
    let differs : str_eq (x ∷ m) md5_string ≡ false = unequal (x ∷ m) md5_string other in
    (rw differs, rw differs, rw differs)
  where
    unequal : (a b : List ℕ) → a ≢ b → str_eq a b ≡ false
    unequal a b ne = elim (Bool-cases (str_eq a b)) [
      | inl e ↦ absurd (ne ((str_eq_iff a b).0 e))
      | inr e ↦ e
    ]
