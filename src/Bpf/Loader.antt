-- ===== src/Bpf/Loader.antt =====
-- The loader of the BPF skeleton: src/bpf/loader.hpp and loader.cpp.
pub mod Configured
use kernel_scope.Prelude.{
  ℕ, zero, ◌-◌, min, if◌then◌else◌, Bool, true, false, List, [], ◌∷◌, ◌++◌, length, take, drop,
  Option, some, none, u32, String,
}
use kernel_scope.Prelude.Int.{ℤ, pos, negsuc}
use kernel_scope.Errors.{ErrorCode, Status, ok, err, make_error}
use kernel_scope.Symbols.ProcMaps.{is_empty}

pub record BpfConfig : Type 0 where
  pub target_pid : ℕ
  pub min_latency_ns : ℕ
  pub min_offcpu_ns : ℕ
  pub capture_user_stacks : Bool
  pub capture_kern_stacks : Bool
  pub stack_sampling_pct : ℕ
  pub target_comm : List ℕ

unfoldable pub default_config : BpfConfig
default_config = record {
  target_pid = 0;
  min_latency_ns = 100_000;
  min_offcpu_ns = 1_000_000;
  capture_user_stacks = true;
  capture_kern_stacks = false;
  stack_sampling_pct = 100;
  target_comm = [];
}

-- The section of the skeleton that configure writes; `target_comm` is an array of 16 bytes.
pub record Rodata : Type 0 where
  pub target_pid : ℕ
  pub min_latency_ns : ℕ
  pub min_offcpu_ns : ℕ
  pub capture_user_stacks : ℕ
  pub capture_kern_stacks : ℕ
  pub stack_sampling_pct : ℕ
  pub target_comm : List ℕ
  pub pidns_dev : ℕ
  pub pidns_ino : ℕ

-- What bpf_map__fd answers for each map.
pub record Maps : Type 0 where
  pub events : ℤ
  pub stack_traces : ℤ
  pub active_syscalls : ℤ
  pub sched_states : ℤ

pub record Skeleton : Type 0 where
  pub rodata : Rodata
  pub maps : Maps

pub record BpfLoader : Type 0 where
  pub skel : Option Skeleton

unfoldable pub new : BpfLoader
new = record { skel = none }

abbrev pub not_opened : Status
not_opened = err (make_error ErrorCode.internal "skeleton not opened")

-- The argument is the answer of kscope_bpf__open.
unfoldable pub open_skeleton : Option Skeleton → BpfLoader → BpfLoader × Status
open_skeleton none l =
    (record { skel = none }, err (make_error ErrorCode.bpf_load_failed "kscope_bpf__open() failed"))
open_skeleton (some s) l = (record { skel = some s }, ok)

abbrev pub task_comm_len : ℕ
task_comm_len = 16

-- memcpy of the name without the last byte of the array, if a name is given.
unfoldable pub write_comm : List ℕ → List ℕ → List ℕ
unfolding is_empty
write_comm comm old =
    let len : ℕ = min (length comm) (task_comm_len - 1) in
    if is_empty comm then old else take len comm ++ drop len old

abbrev pub flag : Bool → ℕ
flag b = if b then 1 else 0

-- st_dev and st_ino, where stat answers.
unfoldable pub write_pidns : Option (ℕ × ℕ) → Rodata → Rodata
write_pidns none r = r
write_pidns (some (dev, ino)) r = record r { pidns_dev = u32 dev; pidns_ino = u32 ino }

unfoldable pub write_rodata : Option (ℕ × ℕ) → BpfConfig → Rodata → Rodata
unfolding write_comm write_pidns
write_rodata stat cfg r = write_pidns stat (record r {
  target_pid = cfg.target_pid;
  min_latency_ns = cfg.min_latency_ns;
  min_offcpu_ns = cfg.min_offcpu_ns;
  capture_user_stacks = flag cfg.capture_user_stacks;
  capture_kern_stacks = flag cfg.capture_kern_stacks;
  stack_sampling_pct = cfg.stack_sampling_pct;
  target_comm = write_comm cfg.target_comm r.target_comm;
})

unfoldable pub configure : Option (ℕ × ℕ) → BpfConfig → BpfLoader → BpfLoader × Status
unfolding write_rodata
configure stat cfg l = elim l.skel [
  | none ↦ (l, not_opened)
  | some s ↦ (record { skel = some (record s { rodata = write_rodata stat cfg s.rodata }) }, ok)
]

-- `if (err)` on the answer of a call, with the message that std::format makes of it.
unfoldable pub checked : ErrorCode → String → ℤ → Status
checked code message (pos zero) = ok
checked code message _ = err (make_error code message)

-- The arguments are the answer of kscope_bpf__load, its message, and the maps afterwards.
unfoldable pub load : ℤ → String → Maps → BpfLoader → BpfLoader × Status
unfolding checked
load answer message maps l = elim l.skel [
  | none ↦ (l, not_opened)
  | some s ↦ (
    record { skel = some (record s { maps = maps }) },
    checked ErrorCode.bpf_load_failed message answer,
  )
]

unfoldable pub attach : ℤ → String → BpfLoader → BpfLoader × Status
unfolding checked
attach answer message l = elim l.skel [
  | none ↦ (l, not_opened)
  | some s ↦ (l, checked ErrorCode.bpf_attach_failed message answer)
]

-- kscope_bpf__detach changes nothing that the loader reads.
unfoldable pub detach : BpfLoader → BpfLoader
detach l = l

unfoldable pub destroy : BpfLoader → BpfLoader
destroy l = record { skel = none }

unfoldable pub ringbuf_fd : BpfLoader → ℤ
ringbuf_fd l = elim l.skel [ none ↦ negsuc 0 | some s ↦ s.maps.events ]

unfoldable pub stack_trace_fd : BpfLoader → ℤ
stack_trace_fd l = elim l.skel [ none ↦ negsuc 0 | some s ↦ s.maps.stack_traces ]

-- The move constructor and the move assignment: the new owner, and what is left of the other.
unfoldable pub move : BpfLoader → BpfLoader × BpfLoader
move other = (record { skel = other.skel }, record { skel = none })
