-- ===== src/Scheduling/TaskWdt.antt =====
-- include/esp_task_wdt.h: the task watchdog, which only keeps track of what is fed. The count of feeds
-- is an `int`, as its word of 32 bits.
pub mod Feeding
use esp32emu.Base.{ℕ, ◌+◌, Bool, true, false, not, ◌||◌, u32, if◌then◌else◌}
use esp32emu.Base.Esp.{EspErr, esp_ok, esp_fail}

pub record TaskWdt : Type 0 where
  pub initialized : Bool
  pub subscribed : Bool
  pub fed : Bool
  pub triggered : Bool
  pub feed_count : ℕ
  pub timeout_ms : ℕ

pub init : TaskWdt → ℕ → TaskWdt
init w timeout_ms = record w {
  timeout_ms = timeout_ms;
  initialized = true;
  fed = true;
  triggered = false;
  feed_count = 0;
}

pub deinit : TaskWdt → TaskWdt
deinit w = record w { initialized = false }

pub add : TaskWdt → TaskWdt × Bool
add w = (record w { subscribed = true }, w.initialized)

pub remove : TaskWdt → TaskWdt × Bool
remove w = (record w { subscribed = false }, true)

pub feed : TaskWdt → TaskWdt × Bool
feed w =
    if not w.initialized || not w.subscribed
    then (w, false)
    else (record w { fed = true; feed_count = u32 (w.feed_count + 1) }, true)

pub simulate_timeout : TaskWdt → TaskWdt
simulate_timeout w = record w { triggered = true; fed = false }

pub is_initialized : TaskWdt → Bool
is_initialized w = w.initialized

pub is_subscribed : TaskWdt → Bool
is_subscribed w = w.subscribed

pub was_triggered : TaskWdt → Bool
was_triggered w = w.triggered

pub get_feed_count : TaskWdt → ℕ
get_feed_count w = w.feed_count

pub get_timeout : TaskWdt → ℕ
get_timeout w = w.timeout_ms

pub reset : TaskWdt
reset = record {
  initialized = false;
  subscribed = false;
  fed = false;
  triggered = false;
  feed_count = 0;
  timeout_ms = 0;
}

pub esp_task_wdt_init : TaskWdt → ℕ → TaskWdt × EspErr
unfolding init
esp_task_wdt_init w timeout_ms = (init w timeout_ms, esp_ok)

pub esp_task_wdt_deinit : TaskWdt → TaskWdt × EspErr
unfolding deinit
esp_task_wdt_deinit w = (deinit w, esp_ok)

ok_if : TaskWdt × Bool → TaskWdt × EspErr
ok_if (w, b) = (w, if b then esp_ok else esp_fail)

pub esp_task_wdt_add : TaskWdt → TaskWdt × EspErr
unfolding add ok_if
esp_task_wdt_add w = ok_if (add w)

pub esp_task_wdt_delete : TaskWdt → TaskWdt × EspErr
unfolding remove ok_if
esp_task_wdt_delete w = ok_if (remove w)

pub esp_task_wdt_reset : TaskWdt → TaskWdt × EspErr
unfolding feed ok_if
esp_task_wdt_reset w = ok_if (feed w)
