-- ===== src/Tracer.antt =====
-- The BPF programs in the kernel: bpf/kscope.bpf.c, filters.h and maps.h. What the helpers of the kernel
-- answer is an argument of each handler.
pub mod Filters
pub mod Handlers
pub mod Runs
pub mod Slices
pub mod Traced
pub mod Named
pub mod Examples
mod Tests
use kernel_scope.Prelude.{ℕ, ◌==◌, Bool, ◌&&◌, ◌≡◌, ◌↔◌, List, [], ◌∷◌, refl, arith, true, Eq, ap}
use kernel_scope.Prelude.Int.{ℤ}
use kernel_scope.Decoder.{RawEvent}
use kernel_scope.Bpf.Bridge.{TaskKey}

abbrev same_key : TaskKey → TaskKey → Bool
same_key a b = a.pid == b.pid && a.tid == b.tid

pub same_key_iff : (a b : TaskKey) → (same_key a b ≡ true) ↔ (a ≡ b)
same_key_iff a b = ground arith

instance abbrev pub task_key_eq : Eq TaskKey
task_key_eq = record { beq = same_key; beq_iff = same_key_iff }

pub record ActiveSyscall : Type 0 where
  pub id : ℕ
  pub start_ns : ℕ
  pub user_stack_id : ℤ
  pub kern_stack_id : ℤ
  pub flags : ℕ

pub record SchedState : Type 0 where
  pub switch_out_ns : ℕ
  pub switch_in_ns : ℕ
  pub accumulated_offcpu_ns : ℕ
  pub last_state : ℕ

-- The maps. `ring` holds the events that were submitted, in order.
pub record Tracer : Type 0 where
  pub active_syscalls : List (TaskKey × ActiveSyscall)
  pub sched_states : List (TaskKey × SchedState)
  pub ring : List RawEvent

unfoldable pub empty : Tracer
empty = record { active_syscalls = []; sched_states = []; ring = [] }

abbrev pub max_active_syscalls : ℕ
max_active_syscalls = 65536

abbrev pub max_sched_entries : ℕ
max_sched_entries = 65536
