-- ===== src/Event/Examples.antt =====
-- Events that the tests run on.
use kernel_scope.Prelude.{ℕ, arith, refl, List, [], ◌∷◌}
use kernel_scope.Prelude.Int.{pos, negsuc}
use kernel_scope.Prelude.Bytes.{All-bytes}
use kernel_scope.Event.{Event, EventType, LatencyClass}
use kernel_scope.Event.Valid.{IsEvent}
use kernel_scope.Ksr.{Padding}
use kernel_scope.Ksr.RoundTrip.{IsPadding}

-- The name is "sh".
abbrev pub name : List ℕ
name = 115 ∷ 104 ∷ 0 ∷ 0 ∷ 0 ∷ 0 ∷ 0 ∷ 0 ∷ 0 ∷ 0 ∷ 0 ∷ 0 ∷ 0 ∷ 0 ∷ 0 ∷ 0 ∷ []

-- A slow futex call of thread 8 of process 7.
abbrev pub futex : Event
futex = record {
  timestamp_ns = 1_000;
  pid = 7;
  tid = 8;
  comm = name;
  cpu = 1;
  type = EventType.syscall_slow;
  classification = LatencyClass.lock_wait;
  duration_ns = 5_000_000;
  syscall_id = 202;
  user_stack_id = pos 3;
  kern_stack_id = negsuc 13;
  flags = 1;
}

-- Thread 9 of the same process off the CPU.
abbrev pub slice : Event
slice = record futex {
  timestamp_ns = 2_000;
  tid = 9;
  type = EventType.offcpu_slice;
  classification = LatencyClass.off_cpu;
  duration_ns = 700;
}

pub futex-IsEvent : IsEvent futex
futex-IsEvent = record {
  timestamp_ns = omega arith;
  pid = omega arith;
  tid = omega arith;
  comm_length = refl;
  comm_bytes = All-bytes name refl;
  cpu = omega arith;
  type = tt;
  classification = tt;
  duration_ns = omega arith;
  syscall_id = omega arith;
  user_stack_id = omega arith;
  kern_stack_id = omega arith;
  flags = omega arith;
}

abbrev pub padding : Padding
padding = record { inner = 1 ∷ 2 ∷ 3 ∷ 4 ∷ []; tail = 5 ∷ 6 ∷ 7 ∷ 8 ∷ [] }

pub padding-IsPadding : IsPadding padding
padding-IsPadding = record { inner = refl; tail = refl }
