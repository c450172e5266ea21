-- ===== src/Lib.antt =====
-- A model of the packet inspection engine under dpi-engine/Packet_analyzer-main/Packet_analyzer-main,
-- and proofs about it. Paths in the other files' comments start from that directory.
--
-- The engine reads captured packets, spreads them by a hash of the five-tuple over load balancers
-- and their fast paths, and each fast path tracks its connections, inspects payloads for a server
-- name, and drops what the rules block. The parts and their files:
--
-- - Base: the shared library. Booleans and options as the code tests and chains them, lists, bits,
--   decimal text, byte strings, equality as an instance argument, and maps of counters with the order
--   of their counts (Counters, Ranking, Largest).
-- - Types (include/types.h, src/types.cpp): Flow has the five-tuple, Hash its hash, App the
--   applications and their names, Classify `sniToAppType`. `std::hash` is the parameter `StdHash`.
-- - Rules (src/rule_manager.cpp): the rule sets as a record, one function per operation. Address
--   has `parseIP` and `ipToString`, Domain the wildcard match, Files the rules file with the lines of
--   its sections; Lines, Sections, Answers and Joined are for its round trip in Saved. A set is a list
--   without order that matters; its insertion and removal are `insert` and `erase` of Base.Eq.
-- - Inspect (src/sni_extractor.cpp): Tls, Http, Dns and Quic, over the reads of Memory.
-- - Tracker (src/connection_tracker.cpp): the connection table as a list in walking order; Lookup, Keys,
--   Cleanup and Capacity are about it.
-- - FastPath (src/fast_path.cpp): `processPacket` and what it calls, and in FastPath.Run the loop
--   over a sequence of events, each a packet or a timeout of the queue.
-- - Balancer (src/load_balancer.cpp): the topology that `LBManager` builds and the routes through it.
-- - Packet (src/packet_parser.cpp, src/dpi_engine.cpp): `PacketParser`; in Packet.Job `createPacketJob`
--   and the reader's round up to the choice of the balancer, in Packet.Capture its loop.
-- - Queue (include/thread_safe_queue.h): the queue between the threads.
-- - Pcap (src/pcap_reader.cpp): the capture file reader over the bytes of a file, in both byte orders.
-- - Engine (src/dpi_engine.cpp): Output has the output file; Pipeline the threads on their queues as a
--   step relation, with Places, Moves, Drain, Workers, Sizes, Phases, Finding, Progress, Shutdown, Stopping
--   and Stranded about its runs, Turns with the waiting of the threads and Work about it, and Lines,
--   Order and FlowOrder about the order in them.
-- - Mt (src/dpi_mt.cpp): the version of the engine in one file: its rules (Blocking), reader (Reader,
--   and Agreement with that of src/dpi_engine.cpp), fast path (Flows, Run) and command line (Options,
--   Configured).
-- - Working (src/main_working.cpp): the loop without threads, with its output file; Flows, Rounds, Run and
--   Whole are for its theorem. Types.Cut has what it shares with the fast path of src/dpi_mt.cpp.
-- - Report (src/connection_tracker.cpp, src/fast_path.cpp, src/dpi_engine.cpp): Table has
--   `GlobalConnectionTable`, Classified and Json what the two reports count, Text the reports; Tallied,
--   Gather, Exact and Agree are about the numbers. Engine.Stats has the counters of the engine, with
--   Counted about them; FastPath.Totals and Balancer.Totals the sums that the managers make.
-- - Command (src/main_dpi.cpp, src/main_simple.cpp, src/main.cpp): Dpi has the options and the rules of
--   the engine that is started, with Configured about them; Simple the program that prints server names,
--   with Inspected about it; Analyzer the one that prints all packets, with Summary about it. Engine.Api
--   has the engine's calls on its rules.
-- - Tests: runs on concrete input and instances of the theorems.
--
-- How the code is read:
--
-- - Strings and packets are lists of bytes. A pointer into a packet is an index of it, and a read
--   outside the packet is `none`; `std::nullopt` is `some none` where both can occur. In `parse_ip`
--   `none` is the undefined shift or the overflow of the `int`.
-- - State is passed explicitly. Each lock of the source guards one call, so a call is one step.
-- - A `Connection*` is a copy of the entry, written back under its tuple when the call ends.
-- - The host is little-endian, so `ntohs` and `ntohl` swap the bytes.
-- - The clocks are read once for each call. Counters of 64 bits are not wrapped; the hash is.
-- - Log lines are left out. A telemetry line is a record of the values printed.
--
-- Loops run on fuel where they do not follow a list: `length + 1` rounds for a loop over a payload
-- and `extensions_end + 1` for the one over TLS extensions. Each round moves its offset on by one at
-- least, and the safety theorems of Tls, Http and Dns show that the fuel never runs out there.
--
-- The loop over a capture runs on `bytes + 1` rounds, which Pcap.Progress shows to be enough. In the
-- pipeline a thread's step reaches from one call of a queue to the next, and which packets a fast path
-- drops is left open, so that what holds of it holds for all rules. A step is one that takes a packet on,
-- passes a test of the wait for empty queues, or tells a thread to stop. Rounds of a loop in which
-- `popWithTimeout` returns nothing (where a fast path cleans up its own table), and tests of the wait that
-- fail, leave the queues as they are and are not among the steps. Turns has them, as often as they come.
-- A test of all queues of a kind is one step, where the source locks one
-- queue after the other.
--
-- Not modelled: the threads, the queues and the report of src/dpi_mt.cpp, the report of
-- src/main_working.cpp, the start of the threads, and the Java service. How a `double` or the local
-- time is printed is a parameter (`fixed` of Report.Text, `put_time` of Command.Analyzer). Entries with
-- equal counts keep their order in a ranking, where `std::sort` leaves it open. The `int`
-- totals of the JSON summary are not bounded; each tracker holds 100000 connections at most by default.
pub mod Base
pub mod Types
pub mod Rules
pub mod Inspect
pub mod Tracker
pub mod FastPath
pub mod Balancer
pub mod Packet
pub mod Queue
pub mod Pcap
pub mod Engine
pub mod Mt
pub mod Working
pub mod Report
pub mod Command
pub mod Tests
