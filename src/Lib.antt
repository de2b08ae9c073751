-- ===== src/Lib.antt =====
-- esp32emu runs Arduino and ESP-IDF sketches on a host. Its headers under include/ stand in for
-- the ESP32's own: each keeps the state of one service or peripheral in memory and gives the
-- sketch the same calls; the web server, the HTTP client and the sockets beneath them are real
-- ones, in src/. This library models the stateful headers, the two ends of HTTP, and the encodings
-- that sketches use.
--
-- The parts, and the files that model them:
-- - FreeRtos: include/freertos/queue.h (Queue), stream_buffer.h with the message buffers on top
--   of it (StreamBuffer), event_groups.h (EventGroup), ringbuf.h (Ringbuf), and the task
--   notifications of FreeRTOS.h (TaskNotify).
-- - Storage: include/esp_partition.h (Partition), esp_ota_ops.h, which searches the partition
--   table (Ota), esp_wear_levelling.h (WearLevelling), esp_flash.h (Flash), nvs_flash.h (Nvs), and
--   the Arduino classes of include/EEPROM.h (Eeprom) and include/Update.h (Update).
-- - Peripherals: include/driver_twai.h (Twai), include/driver/gptimer.h (Gptimer),
--   include/driver/pcnt.h (Pcnt), include/driver/uart.h (Uart), include/MCP23017.h (Mcp23017) and
--   include/ModbusMaster.h (Modbus).
-- - Scheduling: include/TaskScheduler.h (TaskScheduler) and include/esp_task_wdt.h (TaskWdt).
-- - Net: include/esp32emu_socket.h and the loops over sockets of src/wificlient.cpp (Socket),
--   its decoder of URLs (Url), src/webserver.cpp (Web: the state and the response; Web.Request:
--   one connection), src/httpclient.cpp (HttpClient), and what the two say to one another
--   (Exchange).
-- - Text: include/mbedtls/base64.h (Base64) and include/cJSON.h (Json).
-- - Base: strings with the functions of the C++ library on them (Strings), tests on numbers,
--   lists, maps, memory blocks, bits of words, and histories of calls.
--
-- How state and calls correspond: a C++ object with fields is a record with these fields, a call
-- is a function of the same name in snake case from the state and the arguments to the new state
-- and the result. A static object is an argument and a result. A pointer argument that may be null
-- is an Option, or a Boolean that says whether it is null where only the target counts; memory
-- that is read is the list of its bytes. An error code is EspErr, and Outcome has, next to a
-- result and an error, a fault for an access outside of a block, which C++ leaves open.
--
-- Mutexes make each call one step. A call that waits on a condition variable releases its mutex:
-- what other tasks do meanwhile is the argument others of the call. Calls of the system on a
-- socket are lists of their results: the pieces that recv returns, and what each send takes. Text
-- is the list of its bytes, and codes gives the bytes of a literal. Callbacks of the sketch are
-- addresses, a handler of the web server is a number, and what the code behind one does to the
-- object is a parameter. Histories are lists of calls, run by Base.History, and step relations
-- where the states matter.
--
-- Numbers are natural numbers; each operation on a word of 8, 16, 32 or 64 bits has its wrap
-- written out, and negative numbers are words in two's complement. Loops are recursions on what
-- they run over, or on the number of rounds. Three functions take fuel: to_string, with one more
-- than its number; the decoder of chunked bodies, with the length of its text, since each round
-- takes a byte of it; and the parser of JSON, with one more than twice the length of its text,
-- since every second call of a parser within another begins behind a further byte.
--
-- Not modelled: printing; deletion, which only frees memory; host threads and clocks, the opening
-- and closing of sockets, and so the software timers and the emulator's main loop; the pointers
-- between the items of a JSON document; displays and sensors that hold test values; and the
-- headers that stand for another project's library.
pub mod Base
pub mod FreeRtos
pub mod Storage
pub mod Peripherals
pub mod Scheduling
pub mod Net
pub mod Text
