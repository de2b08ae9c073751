-- ===== src/Storage/Update.antt =====
-- include/Update.h: a firmware update. The progress callback is either set or not, and a write returns
-- what it is called with.
pub mod Session
mod Tests
use esp32emu.Base.{
  ℕ, ◌+◌, ◌-◌, ◌^◌, Bool, true, false, not, ◌&&◌, List, [], ◌∷◌, ◌++◌, Option, none, some, ltb,
  ◌==◌, u64, length, if◌then◌else◌, str_eq,
}

abbrev pub update_error_ok : ℕ
update_error_ok = 0

abbrev pub update_error_write : ℕ
update_error_write = 1

abbrev pub update_error_size : ℕ
update_error_size = 5

abbrev pub update_error_md5 : ℕ
update_error_md5 = 7

abbrev pub update_error_abort : ℕ
update_error_abort = 12

abbrev pub update_size_unknown : ℕ
update_size_unknown = 0xFFFFFFFF

pub record UpdateClass : Type 0 where
  pub size_ : ℕ
  pub written : ℕ
  pub command_ : ℕ
  pub error : ℕ
  pub running : Bool
  pub finished : Bool
  pub md5_expected : List ℕ
  pub buffer : List ℕ
  pub has_progress : Bool

-- `begin`, which returns true.
pub begin : UpdateClass → ℕ → ℕ → UpdateClass
begin u size command = record u {
  command_ = command;
  size_ = size;
  written = 0;
  buffer = [];
  error = update_error_ok;
  running = true;
  finished = false;
  md5_expected = [];
}

progress_call : UpdateClass → Option (ℕ × ℕ)
progress_call u = if u.has_progress then some (u.written, u.size_) else none

-- The update, the number that is returned, and the call of the callback.
pub write : UpdateClass → List ℕ → UpdateClass × ℕ × Option (ℕ × ℕ)
unfolding progress_call
write u bytes =
    if not u.running
    then (record u { error = update_error_write }, 0, none)
    else (let u' : UpdateClass = record u {
      buffer = u.buffer ++ bytes;
      written = u64 (u.written + length bytes);
    } in
        (u', length bytes, progress_call u'))

pub write_stream : UpdateClass → UpdateClass × ℕ × Option (ℕ × ℕ)
unfolding progress_call
write_stream u =
    let u' : UpdateClass = record u { written = u64 (u.written + 1024) } in
    (u', 1024, progress_call u')

-- "d41d8cd98f00b204e9800998ecf8427e"
abbrev pub md5_string : List ℕ
md5_string =
    b'd' ∷ b'4' ∷ b'1' ∷ b'd' ∷ b'8' ∷ b'c' ∷ b'd' ∷ b'9' ∷ b'8' ∷ b'f' ∷ b'0' ∷ b'0' ∷ b'b' ∷ b'2'
    ∷ b'0' ∷ b'4' ∷ b'e' ∷ b'9' ∷ b'8' ∷ b'0' ∷ b'0' ∷ b'9' ∷ b'9' ∷ b'8' ∷ b'e' ∷ b'c' ∷ b'f'
    ∷ b'8' ∷ b'4' ∷ b'2' ∷ b'7' ∷ b'e' ∷ []

is_empty : List ℕ → Bool
is_empty [] = true
is_empty (x ∷ xs) = false

fail : UpdateClass → ℕ → UpdateClass × Bool
fail u e = (record u { error = e; running = false }, false)

pub end_ : UpdateClass → Bool → UpdateClass × Bool
unfolding is_empty fail str_eq
end_ u even_if_remaining =
    if not u.running
    then (u, false)
    else if not even_if_remaining
        && (not (u.size_ == update_size_unknown) && not (u.written == u.size_))
    then fail u update_error_size
    else if not (is_empty u.md5_expected) && not (str_eq u.md5_expected md5_string)
    then fail u update_error_md5
    else (record u { running = false; finished = true }, true)

pub abort : UpdateClass → UpdateClass
abort u = record u { error = update_error_abort; running = false; finished = false; buffer = [] }

pub is_running : UpdateClass → Bool
is_running u = u.running

pub is_finished : UpdateClass → Bool
is_finished u = u.finished

pub has_error : UpdateClass → Bool
has_error u = not (u.error == update_error_ok)

pub get_error : UpdateClass → ℕ
get_error u = u.error

pub clear_error : UpdateClass → UpdateClass
clear_error u = record u { error = update_error_ok }

pub size : UpdateClass → ℕ
size u = u.size_

pub progress : UpdateClass → ℕ
progress u = u.written

pub remaining : UpdateClass → ℕ
remaining u =
    if u.size_ == update_size_unknown
    then 0
    else if ltb u.written u.size_
    then u.size_ - u.written
    else 0

-- `none` is a null pointer.
pub set_md5 : UpdateClass → Option (List ℕ) → UpdateClass
set_md5 u none = record u { md5_expected = [] }
set_md5 u (some md5) = record u { md5_expected = md5 }

pub can_roll_back : UpdateClass → Bool
can_roll_back u = u.finished

-- `rollBack`, which returns true.
pub roll_back : UpdateClass → UpdateClass
roll_back u = record u { finished = false }

pub get_buffer : UpdateClass → List ℕ
get_buffer u = u.buffer

pub reset : UpdateClass → UpdateClass
reset u = record u {
  buffer = [];
  written = 0;
  size_ = 0;
  error = update_error_ok;
  running = false;
  finished = false;
}
