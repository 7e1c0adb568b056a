-- ===== src/Aggregator.antt =====
-- The aggregator: src/core/aggregator.hpp and src/core/aggregator.cpp. The mutex makes every public
-- method one step; a method returns the new state, or the result of a query.
pub mod Stats
pub mod Queries
pub mod Processes
pub mod Threads
pub mod Totals
mod Tests
use Prim.Native.Nat.{bit_or}
use kernel_scope.Prelude.{
  ℕ, ◌+◌, ◌*◌, ◌^◌, if◌then◌else◌, Bool, true, false, List, [], ◌∷◌, fold, u64, nat_eq,
}
use kernel_scope.Prelude.Int.{ℤ, is_negative, int_eq}
use kernel_scope.Prelude.Assoc.{update}
use kernel_scope.Event.{Event, EventType}
use Stats.{
  ProcessStats, ThreadStats, SyscallStats, StackStats, no_process, no_thread, no_syscall, no_stack,
  change_process, change_thread, change_syscall, change_stack, Contribution,
}

pub record Aggregator : Type 0 where
  pub procs : List (ℕ × ProcessStats)
  pub threads : List (ℕ × ThreadStats)
  pub syscalls : List (ℕ × SyscallStats)
  pub stacks : List (ℤ × StackStats)
  pub total : ℕ

unfoldable pub empty : Aggregator
empty = record { procs = []; threads = []; syscalls = []; stacks = []; total = 0 }

unfoldable pub update_process : Event → Aggregator → Aggregator
update_process ev a = record a { procs = update ev.pid no_process (change_process ev) a.procs }

-- (static_cast<uint64_t>(ev.pid) << 32) | ev.tid
unfoldable pub thread_key : ℕ → ℕ → ℕ
thread_key pid tid = bit_or (u64 (pid * 2 ^ 32)) tid

unfoldable pub update_thread : Event → Aggregator → Aggregator
update_thread ev a = record a {
  threads = update (thread_key ev.pid ev.tid) no_thread (change_thread ev) a.threads;
}

unfoldable pub update_syscall : Event → Aggregator → Aggregator
update_syscall ev a = record a {
  syscalls = update ev.syscall_id no_syscall (change_syscall ev) a.syscalls;
}

-- The lambda `add`.
unfoldable pub add_stack : Event → ℤ → Bool → Aggregator → Aggregator
add_stack ev id kern a =
    let c : Contribution = record { event = ev; stack_id = id; is_kernel = kern } in
    if is_negative id then a else record a { stacks = update id no_stack (change_stack c) a.stacks }

unfoldable pub update_stack : Event → Aggregator → Aggregator
unfolding add_stack
update_stack ev a = add_stack ev ev.kern_stack_id true (add_stack ev ev.user_stack_id false a)

unfoldable pub process_event : Aggregator → Event → Aggregator
unfolding update_process update_thread update_syscall update_stack
process_event a ev =
    let counted = record a { total = u64 (a.total + 1) } in
    let blocked =
      update_stack ev (update_syscall ev (update_thread ev (update_process ev counted))) in
    let off_cpu = update_stack ev (update_thread ev (update_process ev counted)) in
    elim ev.type [
      | EventType.syscall_slow ↦ blocked
      | EventType.io_wait ↦ blocked
      | EventType.lock_wait ↦ blocked
      | EventType.offcpu_slice ↦ off_cpu
      | _ ↦ counted
    ]

unfoldable pub reset : Aggregator → Aggregator
reset a = record a { procs = []; threads = []; syscalls = []; stacks = []; total = 0 }

unfoldable pub total_events : Aggregator → ℕ
total_events a = a.total

-- The events that reach the tables of processes, threads and stacks, and of system calls.
abbrev pub is_timed : EventType → Bool
is_timed EventType.syscall_slow = true
is_timed EventType.io_wait = true
is_timed EventType.lock_wait = true
is_timed EventType.offcpu_slice = true
is_timed _ = false

abbrev pub is_blocking : EventType → Bool
is_blocking EventType.syscall_slow = true
is_blocking EventType.io_wait = true
is_blocking EventType.lock_wait = true
is_blocking _ = false

-- An aggregator that was fed a list of events.
abbrev pub after : List Event → Aggregator
after evs = fold process_event empty evs
