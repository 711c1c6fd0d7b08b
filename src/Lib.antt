-- ===== src/Lib.antt =====
-- A verification library for market_data_handler: an exchange simulator in C++ that sends binary
-- market data over TCP, and a client that parses it, keeps the state of each symbol behind a
-- sequence lock and records latencies. Paths below are from market_data_handler/ in the repository.
--
-- The parts, and where they are modelled:
--   Prelude    lists, tests and machine words over the native numbers, and the laws of exclusive or
--   Text       decimal numbers and padding: `std::to_string`, `std::stoi`, `std::stoul`, `std::setw`
--   Arguments  the loop of both programs over `argv`, with the settings of each as a record
--   Protocol   include/protocol.h: the packed structs as lists of bytes (`message_bytes`, `read_trade`,
--              `read_quote`), `compute_checksum`, `msg_total_size`
--   Parser     src/client/parser.h, parser.cpp: `feed` = `append_data` and the loop `run` of `step`,
--              `reset`. Step, Run and Stream show that the buffered parser does what one scan of the
--              whole stream does; Frames, Gaps, Faults and Recovery say what that is
--   Latency    include/latency_tracker.h, src/common/latency_tracker.cpp: `add_sample` (`record` in
--              the source), `get_stats`, `reset`, `merge_latency_trackers`; Concurrent interleaves any
--              number of calls of `record`, atomic access by atomic access; Report is the CSV file and
--              the printed histogram
--   Cache      include/cache.h: the four updates and `get_snapshot`, each alone (Updates, History);
--              Dump is src/common/cache.cpp; Seqlock interleaves one writer and one reader of a symbol,
--              access by access
--   Pool       include/memory_pool.h: the free list, with each operation alone; Race interleaves
--              any number of threads in `acquire` and `release`, access by access; SelfTest is
--              src/common/memory_pool.cpp, its loops alone and its threads, Workers, interleaved
--   Client     src/client/feed_handler.cpp: the callbacks, which call Cache and Latency, and the
--              blocks that go to Parser. Socket: src/client/socket.h and socket.cpp, the connection
--              and its retries over the system calls, which Kernel takes as a parameter with their
--              laws on descriptors. Session: the loops of `main`, from the connection to the callbacks
--              and back. Display: src/client/visualizer.cpp, the ranking, the numbers and, in
--              Screen, the bytes of `render`; Lifetime interleaves `start` and `stop` with the thread of
--              the loop. Program: the arguments of `main`, the names of the symbols, the
--              dashboard between `start` and `stop`, the closing statistics
--   Server     Exchange: src/server/exchange_simulator.h and .cpp, the broadcast, the ticks and the
--              loop of `run`; Listener: its constructor, `start` and destructor; ClientManager:
--              src/server/client_manager.h and .cpp; Generator: src/server/tick_generator.h and
--              .cpp. The exchange takes the generator as a `TickSource` with `TickLaws`, which
--              Generator/Seals fills. Program: src/server/main_server.cpp, from the arguments to the code
--   System     the ticks of the exchange, up to what stands in the client's cache
--
-- State is passed explicitly, an access outside an array or a vector is `none`, and the callbacks of
-- the parser are the list of the calls made. Every fixed-width integer wraps where it is written.
-- A `double` is the number that its 64 bits spell wherever nothing computes with it; in the generator
-- and on the screen its arithmetic is a parameter, as are the random engine, the clock and `send`. A
-- network is described by a log of the bytes that each descriptor was sent.
--
-- Fuel: `run` has as many rounds as the buffer has bytes, since each round takes one at least;
-- `send_loop` as many as there are bytes to send; `retry_loop` one more than `max_retries`;
-- `comma_loop` as many as there are digits. `drain` needs one round more than blocks arrive; the loops
-- `session` and `main_loop` run as long as the program does, so their fuel is any number, and a run
-- that needs more is `no_fuel`. `snapshot_loop` has any number of rounds: without a writer the first
-- one returns. `polar_loop`, a rejection loop over random numbers, has a number of rounds that the
-- generator's laws suppose to be enough.
--
-- Not modelled: the lines that the server, the retry loop and the client manager log, and want of
-- memory, but for `names.reserve`, whose size comes from the command line: whether it throws is a
-- parameter. Memory accesses of the sequence lock and of the pool are sequentially
-- consistent. The tests, the benchmarks and the output of the build are no part of the programs.
pub mod Arguments
pub mod Cache
pub mod Client
pub mod Latency
pub mod Parser
pub mod Pool
pub mod Prelude
pub mod Protocol
pub mod Server
pub mod System
pub mod Text
