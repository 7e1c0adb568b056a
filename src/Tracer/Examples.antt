-- ===== src/Tracer/Examples.antt =====
-- A run of the handlers with two processes.
use kernel_scope.Prelude.{ℕ, ◌+◌, ◌*◌, ◌^◌, List, [], ◌∷◌, ◌++◌, none, some, replicate}
use kernel_scope.Prelude.Int.{pos, negsuc}
use kernel_scope.Decoder.{RawEvent}
use kernel_scope.Bpf.Loader.{Rodata}
use kernel_scope.Bpf.Bridge.{TaskKey}
use kernel_scope.Tracer.Filters.{Task}
use kernel_scope.Tracer.Handlers.{Hit, enter, exit, exec, switch}

-- Calls of 100 ns and more of the process 7, with the name "db".
abbrev pub rodata : Rodata
rodata = record {
  target_pid = 7;
  min_latency_ns = 100;
  min_offcpu_ns = 100;
  capture_user_stacks = 1;
  capture_kern_stacks = 0;
  stack_sampling_pct = 100;
  target_comm = 0x64 ∷ 0x62 ∷ replicate 14 0;
  pidns_dev = 0;
  pidns_ino = 0;
}

-- The thread 8 of the process 7, and a thread of another process.
abbrev pub task : ℕ → Task
task now = record {
  pid_tgid = 7 * 2 ^ 32 + 8;
  namespace_ids = none;
  comm = 0x64 ∷ 0x62 ∷ replicate 14 0;
  cpu = 1;
  ktime_ns = now;
  random = 5;
  user_stack = pos 3;
  kern_stack = negsuc 0;
}

abbrev pub other : Task
other = record (task 20) { pid_tgid = 9 * 2 ^ 32 + 9 }

abbrev pub key : TaskKey
key = record { pid = 7; tid = 8 }

abbrev pub memory : RawEvent
memory = record {
  timestamp_ns = 0;
  pid = 0;
  tid = 0;
  comm = replicate 16 0;
  cpu = 0;
  type = 0;
  classification = 0;
  duration_ns = 0;
  syscall_id = 0;
  user_stack_id = pos 0;
  kern_stack_id = pos 0;
  flags = 0;
  pad = 0;
}

-- Between the two ends of the call another process begins one and starts anew.
abbrev pub aside : List Hit
aside = enter other 1 ∷ exec other (some memory) ∷ []

abbrev pub hits : List Hit
hits = enter (task 10) 202 ∷ aside ++ exit (task 500) (some memory) ∷ []

-- The thread 7 leaves the processor and comes back, while the thread 9 comes and goes.
abbrev pub from_to : ℕ → ℕ → ℕ → Hit
from_to prev next now = switch (record {
  prev_pid = prev;
  prev_state = 1;
  next_pid = next;
  next_comm = 0x64 ∷ 0x62 ∷ replicate 14 0;
  out_ns = now;
  in_ns = now + 1;
  cpu = 1;
  memory = some memory;
})

abbrev pub switches : List Hit
switches = from_to 7 9 100 ∷ from_to 9 0 200 ∷ from_to 0 7 400 ∷ []
