-- ===== src/Tui/App/Tests.antt =====
-- A session of the terminal interface.
use kernel_scope.Prelude.{◌*◌, ◌/◌, refl, List, [], ◌∷◌, replicate, none, some}
use kernel_scope.Prelude.Int.{pos}
use kernel_scope.Bpf.Loader.{Maps}
use kernel_scope.Commands.{SetupAnswers}
use kernel_scope.Tui.App.{Sources, Input, refresh, character, other}

-- Nothing can be read, and the maps are empty.
abbrev sources : Sources
sources = record {
  doubles = record { threshold = λ count p. count * p / 100; exact = λ count p h. refl };
  env = λ n. record {
    files = λ path. none;
    maps = λ pid. none;
    kallsyms = none;
    filename = λ path. path;
  };
  lookup_elem = λ n id. none;
  fuel = 1;
  next_active = λ key. none;
  next_sched = λ key. none;
}

abbrev maps : Maps
maps = record {
  events = pos 3;
  stack_traces = pos 4;
  active_syscalls = pos 5;
  sched_states = pos 6;
}

-- Every step of the setup succeeds.
abbrev answers : SetupAnswers
answers = record {
  opened = some (record {
    rodata = record {
      target_pid = 0;
      min_latency_ns = 0;
      min_offcpu_ns = 0;
      capture_user_stacks = 0;
      capture_kern_stacks = 0;
      stack_sampling_pct = 0;
      target_comm = replicate 16 0;
      pidns_dev = 0;
      pidns_ino = 0;
    };
    maps = maps;
  });
  stat = none;
  loaded = pos 0;
  load_message = "";
  maps = maps;
  attached = pos 0;
  attach_message = "";
}

-- Two refreshes with an event each, on the screens of threads and of stacks, and 'q'.
abbrev inputs : List Input
inputs =
    character 0x33 0
    ∷ refresh (replicate 88 1 ∷ []) (pos 1) ""
    ∷ other 4
    ∷ refresh (replicate 88 1 ∷ []) (pos 1) ""
    ∷ character 0x71 4
    ∷ []
