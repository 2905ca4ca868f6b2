-- ===== src/Lib.antt =====
-- OpenASLC, a soft PLC: a scan engine that reads inputs, runs a logic program that a JSON document
-- describes, and writes outputs, every cycle.
--
-- The parts and how they interact. `MemoryMap` is the process image of three areas (%I, %Q and
-- %M), which every other part shares. `AslcEngine` owns the worker thread: in each cycle it lets
-- the drivers fill the inputs, calls the cycle callback, and lets the drivers take the outputs.
-- `LogicRuntime::execute_cycle` is that callback: it runs the rules of the current `LogicProgram`
-- from top to bottom, while other threads may deploy a new program. `RingBufferLogger` collects
-- log lines from all threads and writes them to rotated files on a thread of its own. `WebServer`
-- takes new programs from the network, hands them to `LogicRuntime` and, once they are current, to
-- `ConfigArchive`, which keeps them as a chain of commits in SQLite; it also sets simulated
-- inputs.
--
-- Which file models which code:
--   Base            lists, tests, strings, 64-bit and 32-bit words, outcomes
--   MemoryMap       include/openaslc/memory_map.hpp, src/memory_map.cpp; children: Bounds (the bounds
--                   test), Cells (bytes and bits), Bulk (ranges and snapshots)
--   MockDriver      include/openaslc/mock_driver.hpp, src/mock_driver.cpp
--   Logic           include/openaslc/logic_interpreter.hpp, src/logic_interpreter.cpp: the node
--                   classes as one data type, `LogicProgram::execute`; children: Meaning (what a node
--                   computes), Timer (`TonTimerNode` over many scans), Program (a scan of all rules)
--   Logic/Parse     the parse functions and `LogicProgram::from_json` and `from_file`; child: Schema
--                   (the documents that are programs, independent of the parser)
--   Logic/Runtime   `LogicRuntime`, with the threads that use it as a step relation
--   Logger          include/openaslc/ring_buffer_logger.hpp, src/ring_buffer_logger.cpp; children:
--                   Ring, Fifo (the bounded queue that it implements), History, Writes (what a flush
--                   writes), Rotation, Threads (`start`, `stop` and `flush_loop` among callers of
--                   `log`)
--   Engine          include/openaslc/aslc_engine.hpp, io_driver.hpp, src/aslc_engine.cpp
--   Controller      src/main.cpp: the engine with the mock driver and the logic runtime; children:
--                   System (requests to it between its cycles), Main (`main`, from the start of all
--                   parts to the end)
--   Telemetry       include/openaslc/telemetry_server.hpp, src/telemetry_server.cpp:
--                   `base64_encode`, the frames that are sent, `send_all`,
--                   `poll_client_frame` (Client; its proof is in Arrival and Poll), the handshake
--                   (Handshake), `client_loop` (Loop; Clients has its threads among the others),
--                   `start`, `stop` and `accept_loop` (Server)
--   Digest          the SHA-1 of src/telemetry_server.cpp and the SHA-256 of src/config_archive.cpp
--   Archive         include/openaslc/config_archive.hpp, src/config_archive.cpp; children: Sql (the
--                   interface of SQLite), Rows, Tables (what SQLite promises), Commit and Head
--                   (`commit_config`), Chain (any calls), Readback; Memory is a database for the tests
--   Web             include/openaslc/web_server.hpp, src/web_server.cpp; children: Deploy, History,
--                   Input, one for each handler
-- A method of a class is a function of the same name on the class's record. What it may throw, and
-- undefined behaviour, are the outcomes of Base/Outcome; a parse ends in a `Parsed` of Logic/Parse.
-- Modules named Examples hold runs at concrete inputs.
--
-- Bounds and fuel. `std::size_t` and `uint64_t` have 64 bits and wrap; the three areas have the
-- sizes of the source. A condition is parsed on fuel, the depth of the document, which is enough
-- since every member of a document is less deep; the padding loop of the hashes has fuel 64, since
-- it stops at the next block; `send_all`, and the loop that receives a payload, run on as many
-- rounds as there are bytes, since each round moves one at least; `Engine.run` takes the number of
-- cycles, and `client_loop` its rounds; the request of a handshake is read on 8192 rounds, the
-- limit of the source. Frames that are sent or received are shorter than 2^31 bytes where the
-- source casts a length to `int`.
--
-- nlohmann::json is the interface of Logic/Parse/Json: each field is one of the library's
-- functions, and the laws are what its documentation says of them; `JsonWriter` beside it builds
-- and prints documents, and `JsonReader` of Web/Input reads numbers. SQLite is the interface
-- `Sqlite` of Archive/Sql, with the laws `Tables`; what is stored of a text ends before its first
-- NUL, as the code passes C strings. A request is its body and its parameters, as httplib gives
-- them. `Host` of Controller/Main is what `main` finds: the files, the sockets, and what the other
-- threads do between its calls, as a list of events for each place. Drivers and the cycle callback
-- are the interface `Environment` of Engine. A socket is the interface `Socket` of Telemetry, with
-- what `send` promises in Telemetry/Send and `recv` in Telemetry/Arrival. Whether a vector of a
-- length can be allocated is a parameter of `poll_client_frame`. The formatting of a time stamp is
-- a parameter. `Disk` of Logger says whether the log can be opened and which renames succeed during
-- one flush.
--
-- Not modelled: a call of the logger's `start` while a `stop` is in progress (`start` gives nothing
-- there); the clock, thread priorities and memory locking; the making of directories, and the closing
-- of files and databases; httplib (routing, the static files, the port), whose calls, and `join`, are
-- taken to return; the timeouts and the broadcast period of TelemetryServer; what main prints on the
-- console.
pub mod Base
pub mod MemoryMap
pub mod MockDriver
pub mod Logic
pub mod Logger
pub mod Engine
pub mod Controller
pub mod Digest
pub mod Telemetry
pub mod Archive
pub mod Web
