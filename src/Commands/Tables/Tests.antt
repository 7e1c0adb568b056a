-- ===== src/Commands/Tables/Tests.antt =====
-- A screen of run_hot_stacks, and a command that cannot start.
use kernel_scope.Prelude.{
  ℕ, ◌*◌, ◌/◌, ◌≡◌, refl, arith, true, false, List, [], ◌∷◌, Option, none, some,
}
use kernel_scope.Prelude.Int.{ℤ, pos}
use kernel_scope.Event.Examples.{futex, padding}
use kernel_scope.Aggregator.{Aggregator, after, process_event, empty}
use kernel_scope.Aggregator.Stats.{change_stack}
use kernel_scope.Prelude.Sorting.{top_by}
use kernel_scope.Prelude.Assoc.{update}
use kernel_scope.Bpf.Loader.{stack_trace_fd, open_skeleton}
use kernel_scope.Aggregator.Queries.{top_stacks}
use kernel_scope.Symbols.Symbolizer.{Environment, Symbolizer, new_symbolizer, resolve_stack}
use kernel_scope.Symbols.Symbolizer.Caching.{
  IsTrue, Resolved, resolve_stack-Resolved, new_symbolizer-IsTrue,
}
use kernel_scope.Symbols.Symbolizer.FirstRead.{first_read}
use kernel_scope.Symbols.Elf.{size}
use kernel_scope.Symbols.Elf
use kernel_scope.Bpf.Bridge.{SkeletonBridge, read_stack}
use kernel_scope.Errors.{ErrorCode, make_error}
use kernel_scope.Histogram.{DoubleArithmetic}
use kernel_scope.Commands.{default_options, SetupAnswers, setup_bpf, and_then, is_ok}
use kernel_scope.Commands.Dispatch.{World, run_command}
use kernel_scope.Commands.Dispatch.Refused.{run_command-refused}
use kernel_scope.Commands.Tables.{show_stacks, read_addrs}
use kernel_scope.Commands.Tables.Frames.{fresh_rows, depth, show_stacks-first_read}

-- No file can be read.
abbrev system : Environment
system = record {
  files = λ path. none;
  maps = λ pid. none;
  kallsyms = none;
  filename = λ path. path;
}

-- Each stack has three addresses.
abbrev stacks : ℤ → Option (List ℕ)
stacks id = some (5000 ∷ 6000 ∷ 7000 ∷ 0 ∷ [])

abbrev bridge : SkeletonBridge
bridge = record {
  loader = record {
    skel = some (record {
      rodata = record {
        target_pid = 0;
        min_latency_ns = 0;
        min_offcpu_ns = 0;
        capture_user_stacks = 1;
        capture_kern_stacks = 0;
        stack_sampling_pct = 100;
        target_comm = [];
        pidns_dev = 0;
        pidns_ino = 0;
      };
      maps = record {
        events = pos 3;
        stack_traces = pos 4;
        active_syscalls = pos 5;
        sched_states = pos 6;
      };
    });
  };
}

abbrev agg : Aggregator
agg = after (futex ∷ [])

-- The processes have maps by now.
abbrev later : Environment
later = record system { maps = λ pid. some [] }

depth_of_agg : depth later stacks bridge (top_stacks agg 20) ≡ 3
unfolding top_stacks top_by process_event update empty read_addrs read_stack stack_trace_fd
    change_stack
depth_of_agg = refl

new_is_roomy : (size new_symbolizer.elf_cache ≡ 0) × (new_symbolizer.elf_cache.max_entries ≡ 10000)
unfolding new_symbolizer Elf.new size
new_is_roomy = (refl, refl)

-- What an earlier stack of the process leaves.
abbrev used : Symbolizer
used = (resolve_stack system 1 (5000 ∷ []) false new_symbolizer).0

used-Resolved :
    Resolved system 1
      (5000 ∷ [])
      false
      new_symbolizer
      (resolve_stack system 1 (5000 ∷ []) false new_symbolizer)
used-Resolved =
    resolve_stack-Resolved system 1 (5000 ∷ []) false new_symbolizer (new_symbolizer-IsTrue system)
      (omega (arith, new_is_roomy))

show_stacks-first_read_example :
    ((show_stacks later stacks bridge default_options agg used).0
      ≡ fresh_rows (first_read system later used) stacks bridge 0 (top_stacks agg 20))
    × IsTrue
        (first_read system later used)
        (show_stacks later stacks bridge default_options agg used).1
unfolding default_options
show_stacks-first_read_example =
    show_stacks-first_read stacks bridge system later default_options agg used used-Resolved.is_true
      (omega (arith, depth_of_agg, used-Resolved.grows, used-Resolved.limit, new_is_roomy))

abbrev refusing : SetupAnswers
refusing = record {
  opened = none;
  stat = none;
  loaded = pos 0;
  load_message = "";
  maps = record {
    events = pos 3;
    stack_traces = pos 4;
    active_syscalls = pos 5;
    sched_states = pos 6;
  };
  attached = pos 0;
  attach_message = "";
}

-- Arithmetic that is exact everywhere.
abbrev rational : DoubleArithmetic
rational = record { threshold = λ count p. count * p / 100; exact = λ count p h. refl }

abbrev world : World
world = record {
  setup = refusing;
  created = true;
  t0 = 0;
  turns = [];
  rounds = [];
  doubles = rational;
  env = λ n. system;
  lookup_elem = λ n. stacks;
  opening = record { answers = some []; reason = ""; monotonic_ns = 0; wall_clock_ns = 0 };
  padding = padding;
  replay_file = none;
  reason = "";
  blank = futex;
  system = record {
    release = none;
    has_btf = false;
    euid = 0;
    has_debug_tracing = false;
    has_tracing = false;
  };
}

run_command-refused_example : run_command world default_options ≡ some 1
unfolding default_options setup_bpf open_skeleton and_then is_ok
run_command-refused_example =
    run_command-refused world default_options
      (make_error ErrorCode.bpf_load_failed "kscope_bpf__open() failed") tt refl
