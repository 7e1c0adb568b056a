-- ===== src/Classification.antt =====
-- Latency classification: src/core/classifications.hpp and src/core/classifications.cpp.
pub mod Classes
mod Tests
use kernel_scope.Prelude.{ℕ, ◌==◌, if◌then◌else◌, Bool, false, ◌||◌, List, [], ◌∷◌}
use kernel_scope.Event.{Event, EventType, LatencyClass}

pub data SyscallGroup : Type 0 where
  file_io sync network lock process memory signal other : SyscallGroup

-- The labels of one group of `case`s.
unfoldable pub one_of : ℕ → List ℕ → Bool
one_of id [] = false
one_of id (n ∷ ns) = id == n || one_of id ns

unfoldable pub syscall_group : ℕ → SyscallGroup
unfolding one_of
syscall_group id =
    if one_of id (0 ∷ 1 ∷ 2 ∷ 3 ∷ 5 ∷ 8 ∷ 17 ∷ 18 ∷ 257 ∷ 262 ∷ [])
    then SyscallGroup.file_io
    else if one_of id (74 ∷ 75 ∷ [])
    then SyscallGroup.sync
    else if one_of id (41 ∷ 42 ∷ 43 ∷ 44 ∷ 45 ∷ 46 ∷ 47 ∷ 49 ∷ 50 ∷ 288 ∷ [])
    then SyscallGroup.network
    else if one_of id (202 ∷ [])
    then SyscallGroup.lock
    else if one_of id (56 ∷ 57 ∷ 59 ∷ 61 ∷ [])
    then SyscallGroup.process
    else if one_of id (9 ∷ 10 ∷ 11 ∷ 12 ∷ [])
    then SyscallGroup.memory
    else SyscallGroup.other

unfoldable pub classify_group : SyscallGroup → LatencyClass
classify_group SyscallGroup.lock = LatencyClass.lock_wait
classify_group SyscallGroup.file_io = LatencyClass.io_wait
classify_group SyscallGroup.sync = LatencyClass.io_wait
classify_group SyscallGroup.network = LatencyClass.io_wait
classify_group _ = LatencyClass.syscall_blocked

unfoldable pub classify_event : Event → LatencyClass
unfolding classify_group
classify_event ev = elim ev.type [
  | EventType.offcpu_slice ↦ LatencyClass.off_cpu
  | EventType.syscall_slow ↦ classify_group (syscall_group ev.syscall_id)
  | _ ↦ LatencyClass.unknown
]
