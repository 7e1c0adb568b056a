-- ===== src/Decoder.antt =====
-- The decoder of ring buffer records: src/core/event_decoder.cpp over bpf/events.h.
pub mod Names
pub mod Syscalls
pub mod Layout
mod Tests
use kernel_scope.Prelude.{ℕ, ltb, if◌then◌else◌, List, Option, none, some, length, take, drop}
use kernel_scope.Prelude.Int.{ℤ, signed64}
use kernel_scope.Prelude.Bytes.{le_value}
use kernel_scope.Event.{Event, comm_len, event_type, latency_class}

-- `struct event`, the wire format.
pub record RawEvent : Type 0 where
  pub timestamp_ns : ℕ
  pub pid : ℕ
  pub tid : ℕ
  pub comm : List ℕ
  pub cpu : ℕ
  pub type : ℕ
  pub classification : ℕ
  pub duration_ns : ℕ
  pub syscall_id : ℕ
  pub user_stack_id : ℤ
  pub kern_stack_id : ℤ
  pub flags : ℕ
  pub pad : ℕ

-- sizeof(struct event) under the x86_64 ABI.
abbrev pub raw_event_size : ℕ
raw_event_size = 88

-- The little-endian integer of n bytes at an offset.
unfoldable pub load : ℕ → ℕ → List ℕ → ℕ
load n offset raw = le_value (take n (drop offset raw))

-- The cast to `const struct event*`: each field at its offset under the x86_64 ABI. Four bytes of
-- padding follow `classification`, so that `duration_ns` is aligned.
unfoldable pub raw_event : List ℕ → RawEvent
unfolding load
raw_event raw = record {
  timestamp_ns = load 8 0 raw;
  pid = load 4 8 raw;
  tid = load 4 12 raw;
  comm = take 16 (drop 16 raw);
  cpu = load 4 32 raw;
  type = load 4 36 raw;
  classification = load 4 40 raw;
  duration_ns = load 8 48 raw;
  syscall_id = load 8 56 raw;
  user_stack_id = signed64 (load 8 64 raw);
  kern_stack_id = signed64 (load 8 72 raw);
  flags = load 4 80 raw;
  pad = load 4 84 raw;
}

-- The assignments to `ev`.
unfoldable pub copy_fields : RawEvent → Event
copy_fields src = record {
  timestamp_ns = src.timestamp_ns;
  pid = src.pid;
  tid = src.tid;
  comm = take comm_len src.comm;
  cpu = src.cpu;
  type = event_type src.type;
  classification = latency_class src.classification;
  duration_ns = src.duration_ns;
  syscall_id = src.syscall_id;
  user_stack_id = src.user_stack_id;
  kern_stack_id = src.kern_stack_id;
  flags = src.flags;
}

unfoldable pub decode_event : List ℕ → Option Event
unfolding raw_event copy_fields
decode_event raw =
    if ltb (length raw) raw_event_size then none else some (copy_fields (raw_event raw))
