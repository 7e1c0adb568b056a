-- ===== src/Pipeline/Tests.antt =====
-- One call, from its tracepoints to the tables.
use kernel_scope.Prelude.{
  ℕ, ◌≡◌, refl, arith, true, List, [], ◌∷◌, ◌++◌, replicate, All, nat_eq, none, u64,
}
use kernel_scope.Prelude.Int.{pos}
use kernel_scope.Prelude.Bytes.{le_bytes}
use kernel_scope.Prelude.Assoc.{lookup, update}
use kernel_scope.Prelude.Bounded.{put}
use kernel_scope.Decoder.{raw_event}
use kernel_scope.Tracer.Filters.{filter_pid, fill_task_key, filter_comm, should_capture_stack}
use kernel_scope.Aggregator.{Aggregator, thread_key}
use kernel_scope.Bpf.Loader
use kernel_scope.Bpf.Collector.{Collector}
use kernel_scope.Commands.{aggregate}
use kernel_scope.Tracer.{empty}
use kernel_scope.Tracer.Handlers.{run, handle}
use kernel_scope.Tracer.Runs.{calls}
use kernel_scope.Tracer.Examples.{rodata, key, hits}
use kernel_scope.Pipeline.{IsMemory, IsStarted, polled}
use kernel_scope.Pipeline.Filtered.{polled-filtered}
use kernel_scope.Pipeline.Times.{IsThread, syscall_ns, raw_time, polled-syscall_ns}

abbrev collector : Collector Aggregator
collector = record {
  loader = Loader.new;
  rb = true;
  callback = aggregate;
  running = true;
  received = 0;
  decode_errors = 0;
}

collector-IsStarted : IsStarted collector
collector-IsStarted = record {
  callback = refl;
  rb = refl;
  running = refl;
  received = omega arith;
  decode_errors = omega arith;
}

-- The event of the call of 490 ns in memory.
abbrev record_bytes : List ℕ
record_bytes =
    le_bytes 8 500
    ++ le_bytes 4 7
    ++ le_bytes 4 8
    ++ (0x64 ∷ 0x62 ∷ replicate 14 0)
    ++ le_bytes 4 1
    ++ le_bytes 4 1
    ++ le_bytes 4 0
    ++ le_bytes 4 0
    ++ le_bytes 8 490
    ++ le_bytes 8 202
    ++ le_bytes 8 3
    ++ replicate 8 255
    ++ le_bytes 4 1
    ++ le_bytes 4 0

record_bytes-IsMemory : IsMemory (record_bytes ∷ []) (run rodata empty hits).ring
unfolding handle lookup filter_pid fill_task_key filter_comm put empty update le_bytes raw_event
    should_capture_stack
record_bytes-IsMemory = (omega arith, refl, tt)

ring-IsThread : All IsThread (run rodata empty hits).ring
unfolding handle lookup filter_pid fill_task_key filter_comm put empty update
ring-IsThread = ((omega arith, omega arith), tt)

polled-filtered_example : lookup 9 (polled (record_bytes ∷ []) (pos 1) "" collector).procs ≡ none
unfolding filter_pid
polled-filtered_example =
    polled-filtered rodata hits (record_bytes ∷ []) (pos 1) "" collector 9 collector-IsStarted
      record_bytes-IsMemory refl

polled-syscall_ns_example :
    syscall_ns (lookup (thread_key 7 8) (polled (record_bytes ∷ []) (pos 1) "" collector).threads)
    ≡ u64 (raw_time (calls rodata key none hits))
polled-syscall_ns_example =
    polled-syscall_ns rodata key (omega arith) (omega arith) hits (record_bytes ∷ []) (pos 1) ""
      collector (omega arith) collector-IsStarted record_bytes-IsMemory ring-IsThread
