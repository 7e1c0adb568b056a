-- ===== src/Classification/Classes.antt =====
-- Which events are given which class.
use kernel_scope.Prelude.{ℕ, Bool, true, ◌==◌, ◌||◌, ◌≡◌, ◌≢◌, arith, ◌↔◌}
use kernel_scope.Event.{Event, EventType, LatencyClass}
use kernel_scope.Classification.{
  SyscallGroup, syscall_group, classify_group, classify_event, one_of,
}

-- Number 202 is futex.
syscall_group-lock : (id : ℕ) → syscall_group id ≡ SyscallGroup.lock → id ≡ 202
unfolding syscall_group
syscall_group-lock id h = ground arith

syscall_group-futex : (id : ℕ) → id ≡ 202 → syscall_group id ≡ SyscallGroup.lock
unfolding syscall_group
syscall_group-futex id h = rw h

-- The calls on files: read, write, open, close, fstat, lseek, pread64, pwrite64, openat, newfstatat,
-- fsync and fdatasync.
abbrev pub is_file_call : ℕ → Bool
is_file_call id =
    id == 0
    || id == 1
    || id == 2
    || id == 3
    || id == 5
    || id == 8
    || id == 17
    || id == 18
    || id == 257
    || id == 262
    || id == 74
    || id == 75

-- The calls on sockets: socket, connect, accept, sendto, recvfrom, sendmsg, recvmsg, bind, listen, accept4.
abbrev pub is_socket_call : ℕ → Bool
is_socket_call id =
    id == 41
    || id == 42
    || id == 43
    || id == 44
    || id == 45
    || id == 46
    || id == 47
    || id == 49
    || id == 50
    || id == 288

classify_group-io_wait :
    (id : ℕ)
    → (classify_group (syscall_group id) ≡ LatencyClass.io_wait)
      ↔ ((is_file_call id || is_socket_call id) ≡ true)
unfolding classify_group syscall_group one_of
classify_group-io_wait id = (λ h. ground (arith, h), λ h. ground (arith, h))

classify_group-lock_wait :
    (g : SyscallGroup) → (classify_group g ≡ LatencyClass.lock_wait) ↔ (g ≡ SyscallGroup.lock)
unfolding classify_group
classify_group-lock_wait g = (λ h. ground arith, λ h. ground arith)

-- What each class stands for.
pub record Classes (ev : Event) : Type 0 where
  pub off_cpu : (classify_event ev ≡ LatencyClass.off_cpu) ↔ (ev.type ≡ EventType.offcpu_slice)
  pub lock_wait :
      (classify_event ev ≡ LatencyClass.lock_wait)
      ↔ ((ev.type ≡ EventType.syscall_slow) × (ev.syscall_id ≡ 202))
  pub io_wait : (classify_event ev ≡ LatencyClass.io_wait) ↔ (
      (ev.type ≡ EventType.syscall_slow)
      × ((is_file_call ev.syscall_id || is_socket_call ev.syscall_id) ≡ true))
  pub unknown :
      (classify_event ev ≡ LatencyClass.unknown)
      ↔ ((ev.type ≢ EventType.syscall_slow) × (ev.type ≢ EventType.offcpu_slice))
  pub never_on_cpu : classify_event ev ≢ LatencyClass.on_cpu
  pub never_unknown_wait : classify_event ev ≢ LatencyClass.unknown_wait

-- `classify_event` on every event: `off_cpu` exactly for off-CPU slices; of the slow system calls
-- `lock_wait` exactly for futex (202) and `io_wait` exactly for the twelve calls on files and the ten on
-- sockets that are listed above by their numbers on x86_64; `unknown` exactly for all other event types, those named io_wait and lock_wait among them;
-- `on_cpu` and `unknown_wait` never.
pub classify_event-Classes : (ev : Event) → Classes ev
unfolding classify_event
classify_event-Classes ev = record {
  off_cpu = (λ h. ground arith, λ h. ground arith);
  lock_wait = (
    λ h. ground (arith, syscall_group-lock ev.syscall_id),
    λ h. ground (arith, syscall_group-futex ev.syscall_id),
  );
  io_wait = (
    λ h. ground (arith, (classify_group-io_wait ev.syscall_id).0),
    λ h. ground (arith, (classify_group-io_wait ev.syscall_id).1),
  );
  unknown = (λ h. ground arith, λ h. ground arith);
  never_on_cpu = λ h. ground arith;
  never_unknown_wait = λ h. ground arith;
}
