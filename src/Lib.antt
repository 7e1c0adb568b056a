-- ===== src/Lib.antt =====
-- KernelScope: a low-overhead latency tracer for Linux. BPF programs put events into a ring buffer; the
-- user-space program decodes them, classifies them, aggregates them, records them to .ksr files and
-- replays these, resolves addresses to symbols, and shows the result.
--
-- The parts, and the files that model them:
--
-- Prelude: shared notation, lists, bytes, bits, association lists, the sorted queries, and tables that
--   are fed a list of events.
-- Errors: src/util/errors.hpp. `Status` is std::expected<void, Error>; the text of strerror is a
--   parameter.
-- Event: src/core/event.hpp. `Event.Valid` has the ranges of the C++ types. An enumeration has the
--   constructor `unnamed` for the values that a static_cast makes beside the enumerators.
-- Decoder: src/core/event_decoder.cpp, with the layout of struct event in bpf/events.h.
-- Ksr: src/record/format.cpp, recorder.cpp and replay.cpp. Objects are byte lists under the x86_64 ABI;
--   the padding of an Event, which no field determines, is a parameter. A file is written through
--   `fwrite`, which may store less than asked, as the list of answers says; a file that is read is the
--   list of its bytes. The loop of replay runs on fuel: one more than the bytes that are left, since
--   each round that goes on takes four bytes or more.
-- Histogram: src/core/histograms.cpp. The double arithmetic of percentile is the interface
--   `DoubleArithmetic`, of which only exactness on small products is assumed, at whole percents.
--   The number of digits of std::bit_width is counted on fuel 64, the width of the type.
-- Classification: src/core/classifications.cpp.
-- Window: src/core/windows.cpp.
-- Aggregator: src/core/aggregator.cpp. The hash tables are association lists, on which nothing depends
--   but the order of equal entries in a query; std::sort is an insertion sort, and the theorems on
--   queries say what any sort under the same order gives. The mutex makes each public method one step.
--
-- Symbols: src/symbolization/. `ProcMaps` reads /proc/<pid>/maps, scanned line by line; `Elf` parses a
--   file through the answers of libelf and keeps the parsed files in a bounded cache; `Symbolizer` puts
--   both together with the kernel's table; `Nearest` is the search by std::upper_bound. What sscanf,
--   libelf and std::filesystem answer are parameters. The files may be others at each call (`FirstRead`,
--   `Changing`), but stay the same while one stack or one screen of stacks is resolved.
-- Bpf: src/bpf/. `Loader`, `Collector` and `Bridge` over the answers of libbpf; `Session` follows events
--   from the ring buffer to the aggregator, live and through a recording. The loop over the keys of a map
--   runs on fuel: one more than the keys of the map is enough.
-- Commands: src/cli/commands.cpp. The setup of the BPF programs, and every command: `Polling` has those
--   that poll without a table and the replay, `Top` the loop that the four tables share, `Tables` their
--   rows, `Doctor` the check of the system, and `Dispatch` puts them together. A loop takes what each round
--   reads from a list of rounds; a list that does not end the loop leaves it `running`.
-- Tracer: bpf/kscope.bpf.c with filters.h, maps.h and events.h, which run in the kernel. A handler is a
--   function of the maps; what the helpers of the kernel answer is given with each call. Handlers of one
--   task do not overlap and an operation on a map is atomic, so that what the processors do together is a
--   list of calls, in any order. The hash maps are association lists of bounded length
--   (`Prelude.Bounded`), and the ring is the list of the events that were submitted.
-- PidNs: src/util/pidns.cpp, over the files of /proc.
-- Exporters: src/export/. The text of prometheus_export.cpp, where the text that std::format makes of a double
--   is a parameter, and the documents of json_export.cpp and otel_export.cpp in front of dump. The entries
--   stand in the order of the tables, which the hash tables of the program do not promise.
-- Tui: src/tui/. A screen is the values that its elements show, with the styles that depend on them. The
--   library calls the renderer and the handler of events one at a time, so that a session is a list of these
--   calls, which ends with the first q or Escape, or where the library leaves its loop by itself (Ctrl+C or
--   a signal); the calls that the refreshing thread asks for are in the list.
-- Pipeline: the handlers, the ring buffer, the collector and the aggregator together.
--
-- Machine integers keep their width: counters and sums wrap at 2^32 or 2^64.
--
-- Not modelled: logging, clocks, signals, the formatting of columns, the text of JSON and the option
-- parser, which are input and output or third-party code; Histogram::average, which returns a double.
pub mod Prelude
pub mod Errors
pub mod Event
pub mod Decoder
pub mod Ksr
pub mod Histogram
pub mod Classification
pub mod Window
pub mod Aggregator
pub mod Symbols
pub mod Bpf
pub mod Commands
pub mod Tracer
pub mod PidNs
pub mod Pipeline
pub mod Exporters
pub mod Tui
