-- ===== src/Scheduling/TaskWdt/Feeding.antt =====
-- Feeds of a watchdog between its other calls.
use esp32emu.Base.{ℕ, ◌+◌, ◌^◌, ◌<◌, ◌≡◌, ◌∙◌, List, [], ◌∷◌, arith, u32, if◌then◌else◌}
use esp32emu.Base.Esp.{esp_ok, esp_fail}
use esp32emu.Scheduling.TaskWdt.{
  TaskWdt, feed, get_feed_count, ok_if, esp_task_wdt_init, esp_task_wdt_deinit, esp_task_wdt_add,
  esp_task_wdt_delete, esp_task_wdt_reset, simulate_timeout, init, add, deinit, remove,
}

pub data Call : Type 0 where
  subscribe unsubscribe deinitialize timeout feeds : Call

-- The watchdog after a call, and 1 for a feed that succeeded.
pub step : TaskWdt → Call → TaskWdt × ℕ
step w subscribe = ((esp_task_wdt_add w).0, 0)
step w unsubscribe = ((esp_task_wdt_delete w).0, 0)
step w deinitialize = ((esp_task_wdt_deinit w).0, 0)
step w timeout = (simulate_timeout w, 0)
step w feeds = let (w', e) = esp_task_wdt_reset w in (w', elim e [ esp_ok ↦ 1 | _ ↦ 0 ])

pub fed_in : TaskWdt → List Call → TaskWdt × ℕ
unfolding step
fed_in w [] = (w, 0)
fed_in w (c ∷ cs) = let (w', n) = step w c in let (w'', k) = fed_in w' cs in (w'', n + k)

step_count :
    (w : TaskWdt) (c : Call)
    → w.feed_count < 2 ^ 32
    → ((step w c).0.feed_count ≡ u32 (w.feed_count + (step w c).1))
unfolding step esp_task_wdt_add esp_task_wdt_delete esp_task_wdt_deinit simulate_timeout
    esp_task_wdt_reset feed ok_if add remove deinit
step_count w subscribe h = omega arith
step_count w unsubscribe h = omega arith
step_count w deinitialize h = omega arith
step_count w timeout h = omega arith
step_count w feeds h = ground (arith, h)

counted :
    (w : TaskWdt) (cs : List Call)
    → w.feed_count < 2 ^ 32
    → (fed_in w cs).0.feed_count ≡ u32 (w.feed_count + (fed_in w cs).1)
unfolding fed_in
counted w [] h = omega arith
counted w (c ∷ cs) h =
    let one = step_count w c h in
    let rest = counted (step w c).0 cs (omega (arith, one)) in omega (arith, one, rest)

-- After an initialisation the feed count is the number of feeds that succeeded since, as a word of 32
-- bits, over any other calls but a new initialisation; a feed succeeds exactly on an initialised watchdog
-- with a subscription.
pub feeds_counted :
    (w : TaskWdt) (ms : ℕ) (cs : List Call)
    → let (w', n) = fed_in (esp_task_wdt_init w ms).0 cs in
      (get_feed_count w' ≡ u32 n)
      × ((esp_task_wdt_reset w').1
          ≡ (if w'.initialized then if w'.subscribed then esp_ok else esp_fail else esp_fail))
unfolding get_feed_count esp_task_wdt_init init esp_task_wdt_reset feed ok_if
feeds_counted w ms cs =
    let w0 = (esp_task_wdt_init w ms).0 in
    (counted w0 cs (omega arith) ∙ omega arith, succeeds (fed_in w0 cs).0)
  where
    succeeds :
        (v : TaskWdt)
        → (ok_if (feed v)).1
          ≡ (if v.initialized then if v.subscribed then esp_ok else esp_fail else esp_fail)
    succeeds v = ground arith
