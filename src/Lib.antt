-- ===== src/Lib.antt =====
-- The firmware of a plant watering system: a main device with a pump, a tank, a web page and a table
-- of workers, and worker devices with moisture sensors and valves, which talk by encrypted Bluetooth
-- advertisements. The model covers the code that decides; pins, radio, flash and HTTP are outside.
--
-- How the parts interact. The watering task of the main device (WateringTask, main/src/main.cpp) decides
-- in each cycle which pots are watered. For each worker the main device builds a water command (Watering, main/src/watering_manager.cpp)
-- from fields (Bluetooth.Tlv), which goes out in a packet (Bluetooth.Packet, Bluetooth.Crypto). The
-- worker decodes it, checks it and queues it (Worker.Control, worker/src/bluetooth_worker.cpp), and its
-- control task acknowledges it and opens the valves (Worker.Water, Worker.Valve). The worker reports the
-- end, or its readings, by a packet of its own, which the main device hands to the waiting call or notes
-- in its table of nodes (Nodes, main/src/bluetooth_main.cpp). What is watered automatically, and when,
-- follows from the clock (Clock, main/src/clock_manager.cpp), the configuration (Settings,
-- main/src/settings.cpp) and the policies (Policy, the headers
-- of main/include). Firmware comes as a package (Ota.Package, main/src/firmware_package.cpp) that the
-- browser uploads (Web, main/src/webui.cpp), the main device stores and sends on (Ota.WorkerManager,
-- main/src/worker_ota_manager.cpp), and the worker installs over GATT (Worker.OtaService,
-- worker/src/worker_ota_service.cpp).
--
-- Files and code:
--   Prelude              Boolean tests, lists, integers, bytes, words and loops that all modules share
--   Policy.AutoRecovery  main/include/AutoRecovery.h, main/src/auto_recovery.cpp
--   Policy.AutoWatering  main/include/AutoWateringPolicy.h
--   Policy.ClockMath     main/include/ClockMath.h
--   Policy.FirmwareVersion  main/include/FirmwareVersionPolicy.h
--   Policy.StatusLed     main/include/StatusLed.h
--   Text                 copyUtf8Truncated and the address text of main/src/utility.cpp
--   Settings             the table of workers of main/src/settings.cpp: addWorkerByHex and its kin;
--                        History has the watering times, Runtime the automatic mode and the Wi-Fi upkeep
--   Bluetooth            main/src/bluetooth_common.cpp and main/src/bluetooth_crypto.cpp (worker/src has
--                        the same code): bodies, packets, encryption, the scan callback;
--                        Sender has the message ids and processCommandJob with its retries
--   Worker.Water         parseWaterCommand, validateCommand, executeWaterCommand
--   Worker.Control       parseAdvert, workerControlTask, btWorkerAdvertiseStatus, the pairing
--   Worker.OtaService    the update service, all callbacks; Info has what the worker shows of itself
--   Worker.Valve         worker/src/valve.cpp
--   Clock                main/src/clock_manager.cpp: the clock, and the requests for the network's time;
--                        Calls sets the clock and reads the time of day
--   Watering             main/src/watering_manager.cpp: the manual queue, wateringExecuteWorker
--   WateringTask         TaskWatering of main/src/main.cpp (Rounds), waterFreshWorkers and the sleep command
--   Nodes                main/src/bluetooth_main.cpp: parseAdvert and the table of nodes
--   Ota.Package          main/src/firmware_package.cpp
--   Ota.WorkerManager    main/src/worker_ota_manager.cpp: Upload takes a package in chunks, Remote reads
--                        what a worker shows, Deploy updates a worker
--   Ota.MainManager      main/src/ota_manager.cpp: the update of the main device itself
--   Web.WorkerUpload     the handlers of main/src/webui.cpp for the worker update
--   Examples             runs at concrete inputs
--
-- Conventions. Addresses and bodies are lists of bytes. Unsigned integers are natural numbers, with the
-- wrap-around written out where the code can reach it. Times are arguments, in the unit of the code. A
-- call that a mutex guards is one step. Log output and null pointers, which no caller passes, are left
-- out. The source's `findWorkerLocked` and `findNodeLocked` with the change of the entry are one
-- recursion over the table. Names of C++ functions are kept, in lower case with underscores.
--
-- Loops. The search for a field, the scan of an advertisement and the copy of a text recurse on fuel
-- that starts at the length of the bytes; every round uses up a byte at least. Loops over a range
-- recurse on the number of rounds. The wait of wateringExecuteWorker recurses over the rounds that its
-- surroundings give, and answers `none` while they have not ended it. So do the attempts of
-- processCommandJob and their waits. A batch of waterings recurses over its requests. The transfer of
-- an image recurses over rounds of one chunk of 160 bytes each; one round more than the image has
-- chunks is enough.
--
-- Parameters. Encryption is a record of functions with the law that what is sealed is unsealed again and
-- keeps its length. For the two updates by ESP-IDF, its calls and those of mbedTLS are a record of their
-- outcomes; the law is that esp_ota_begin refuses a missing partition and an image that does not fit. The
-- layout of esp_image_header_t is a parameter. So are the number of pots and the firmware version, which
-- are build flags. For the worker update on the main device, how each call of the file system, of the
-- hash and of the GATT client ends is an argument, and the connected worker is a record of what its
-- characteristics do, with the reads of the stored package; where both ends are put together, it is the model of the worker's service.
--
-- Not modelled: the sender's queues, the polling of the workers in a cycle
-- (synchronizeConfiguredWorkers of main/src/main.cpp), persistence, the handlers of the web interface
-- other than those of the worker update, and all float arithmetic (battery percentage, soil
-- correction, the breathing LED).
pub mod Prelude
pub mod Policy
pub mod Text
pub mod Settings
pub mod Ota
pub mod Bluetooth
pub mod Clock
pub mod Worker
pub mod Watering
pub mod Nodes
pub mod Web
pub mod WateringTask
pub mod Examples
