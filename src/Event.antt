-- ===== src/Event.antt =====
-- The user-space event: src/core/event.hpp.
pub mod Valid
pub mod Examples
use Prim.Native.Nat.{bit_and}
use kernel_scope.Prelude.{ℕ, ◌==◌, if◌then◌else◌, Bool, not, List, [], ◌∷◌, take}
use kernel_scope.Prelude.Int.{ℤ}

-- The enumerators, and the values that a static_cast from uint32_t makes beside them.
pub data EventType : Type 0 where
  none syscall_slow offcpu_slice lock_wait io_wait proc_exec proc_exit lost_samples diag : EventType
  unnamed : ℕ → EventType

pub data LatencyClass : Type 0 where
  unknown on_cpu off_cpu syscall_blocked io_wait lock_wait unknown_wait : LatencyClass
  unnamed : ℕ → LatencyClass

-- static_cast<EventType>(n) for a uint32_t n.
unfoldable pub event_type : ℕ → EventType
event_type n =
    if n == 0
    then EventType.none
    else if n == 1
    then EventType.syscall_slow
    else if n == 2
    then EventType.offcpu_slice
    else if n == 3
    then EventType.lock_wait
    else if n == 4
    then EventType.io_wait
    else if n == 5
    then EventType.proc_exec
    else if n == 6
    then EventType.proc_exit
    else if n == 7
    then EventType.lost_samples
    else if n == 8
    then EventType.diag
    else EventType.unnamed n

unfoldable pub event_type_value : EventType → ℕ
event_type_value EventType.none = 0
event_type_value EventType.syscall_slow = 1
event_type_value EventType.offcpu_slice = 2
event_type_value EventType.lock_wait = 3
event_type_value EventType.io_wait = 4
event_type_value EventType.proc_exec = 5
event_type_value EventType.proc_exit = 6
event_type_value EventType.lost_samples = 7
event_type_value EventType.diag = 8
event_type_value (EventType.unnamed n) = n

-- static_cast<LatencyClass>(n) for a uint32_t n.
unfoldable pub latency_class : ℕ → LatencyClass
latency_class n =
    if n == 0
    then LatencyClass.unknown
    else if n == 1
    then LatencyClass.on_cpu
    else if n == 2
    then LatencyClass.off_cpu
    else if n == 3
    then LatencyClass.syscall_blocked
    else if n == 4
    then LatencyClass.io_wait
    else if n == 5
    then LatencyClass.lock_wait
    else if n == 6
    then LatencyClass.unknown_wait
    else LatencyClass.unnamed n

unfoldable pub latency_class_value : LatencyClass → ℕ
latency_class_value LatencyClass.unknown = 0
latency_class_value LatencyClass.on_cpu = 1
latency_class_value LatencyClass.off_cpu = 2
latency_class_value LatencyClass.syscall_blocked = 3
latency_class_value LatencyClass.io_wait = 4
latency_class_value LatencyClass.lock_wait = 5
latency_class_value LatencyClass.unknown_wait = 6
latency_class_value (LatencyClass.unnamed n) = n

abbrev pub comm_len : ℕ
comm_len = 16

-- `comm` is the array of kCommLen bytes.
pub record Event : Type 0 where
  pub timestamp_ns : ℕ
  pub pid : ℕ
  pub tid : ℕ
  pub comm : List ℕ
  pub cpu : ℕ
  pub type : EventType
  pub classification : LatencyClass
  pub duration_ns : ℕ
  pub syscall_id : ℕ
  pub user_stack_id : ℤ
  pub kern_stack_id : ℤ
  pub flags : ℕ

-- The bytes in front of the first NUL.
unfoldable pub until_nul : List ℕ → List ℕ
until_nul [] = []
until_nul (c ∷ cs) = let rest = c ∷ until_nul cs in if c == 0 then [] else rest

unfoldable pub comm_str : Event → List ℕ
unfolding until_nul
comm_str ev = until_nul (take comm_len ev.comm)

unfoldable pub has_user_stack : Event → Bool
has_user_stack ev = not (bit_and ev.flags 1 == 0)

unfoldable pub has_kern_stack : Event → Bool
has_kern_stack ev = not (bit_and ev.flags 2 == 0)
