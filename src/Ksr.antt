-- ===== src/Ksr.antt =====
-- The .ksr recording format: src/record/format.hpp and src/record/format.cpp.
pub mod RoundTrip
pub mod Wire
pub mod Recorder
pub mod Replay
pub mod Session
mod Tests
use Prim.Native.Nat.{bit_and}
use kernel_scope.Prelude.{
  ℕ, ltb, leb, ◌==◌, if◌then◌else◌, Bool, true, false, ◌&&◌, List, [], ◌∷◌, ◌++◌, length, take,
  drop, replicate,
}
use kernel_scope.Prelude.Int.{signed64, unsigned64}
use kernel_scope.Prelude.Bytes.{le_value, le_bytes}
use kernel_scope.Event.{Event, event_type, event_type_value, latency_class, latency_class_value}

-- "KSCOPE\x01\x00", the eight bytes that are copied and compared.
abbrev pub ksr_magic : List ℕ
ksr_magic = 0x4b ∷ 0x53 ∷ 0x43 ∷ 0x4f ∷ 0x50 ∷ 0x45 ∷ 0x01 ∷ 0x00 ∷ []

abbrev pub ksr_version : ℕ
ksr_version = 1

pub record KsrHeader : Type 0 where
  pub magic : List ℕ
  pub version : ℕ
  pub flags : ℕ
  pub timebase_ns : ℕ
  pub start_time_ns : ℕ
  pub reserved : List ℕ

-- The arguments are the readings of the monotonic clock and of the wall clock.
unfoldable pub make_header : ℕ → ℕ → KsrHeader
make_header monotonic_ns wall_clock_ns = record {
  magic = ksr_magic;
  version = ksr_version;
  flags = 0;
  timebase_ns = monotonic_ns;
  start_time_ns = wall_clock_ns;
  reserved = replicate 32 0;
}

-- memcmp(a, b, 8) == 0 on two arrays of the same length.
unfoldable pub same_bytes : List ℕ → List ℕ → Bool
same_bytes [] [] = true
same_bytes (a ∷ xs) (b ∷ ys) = a == b && same_bytes xs ys
same_bytes _ _ = false

unfoldable pub validate_header : KsrHeader → Bool
unfolding same_bytes
validate_header hdr = same_bytes hdr.magic ksr_magic && leb hdr.version ksr_version

abbrev pub header_size : ℕ
header_size = 64

-- The object representation of a KsrHeader, which has no padding.
unfoldable pub header_bytes : KsrHeader → List ℕ
header_bytes hdr =
    hdr.magic
    ++ (le_bytes 4 hdr.version
        ++ (le_bytes 4 hdr.flags
            ++ (le_bytes 8 hdr.timebase_ns ++ (le_bytes 8 hdr.start_time_ns ++ hdr.reserved))))

unfoldable pub header_object : List ℕ → KsrHeader
header_object bytes = record {
  magic = take 8 bytes;
  version = le_value (take 4 (drop 8 bytes));
  flags = le_value (take 4 (drop 12 bytes));
  timebase_ns = le_value (take 8 (drop 16 bytes));
  start_time_ns = le_value (take 8 (drop 24 bytes));
  reserved = take 32 (drop 32 bytes);
}

-- sizeof(Event) under the x86_64 ABI.
abbrev pub event_size : ℕ
event_size = 88

-- The bytes of an Event that belong to no field: their values are not determined by the program.
pub record Padding : Type 0 where
  pub inner : List ℕ
  pub tail : List ℕ

-- memcpy from an Event: its fields in order, with the padding of the x86_64 ABI.
unfoldable pub serialize_event : Padding → Event → List ℕ
serialize_event p ev =
    le_bytes 8 ev.timestamp_ns
    ++ (le_bytes 4 ev.pid
        ++ (le_bytes 4 ev.tid
            ++ (ev.comm
                ++ (le_bytes 4 ev.cpu
                    ++ (le_bytes 4 (event_type_value ev.type)
                        ++ (le_bytes 4 (latency_class_value ev.classification)
                            ++ (p.inner
                                ++ (le_bytes 8 ev.duration_ns
                                    ++ (le_bytes 8 ev.syscall_id
                                        ++ (le_bytes 8 (unsigned64 ev.user_stack_id)
                                            ++ (le_bytes 8 (unsigned64 ev.kern_stack_id)
                                                ++ (le_bytes 4 ev.flags ++ p.tail))))))))))))

-- memcpy to an Event: the fields are read one behind the other.
unfoldable pub event_object : List ℕ → Event
event_object d0 =
    let d1 = drop 8 d0 in
    let d2 = drop 4 d1 in
    let d3 = drop 4 d2 in
    let d4 = drop 16 d3 in
    let d5 = drop 4 d4 in
    let d6 = drop 4 d5 in
    let d7 = drop 4 (drop 4 d6) in
    let d8 = drop 8 d7 in
    let d9 = drop 8 d8 in
    let d10 = drop 8 d9 in
    let d11 = drop 8 d10 in
    record {
      timestamp_ns = le_value (take 8 d0);
      pid = le_value (take 4 d1);
      tid = le_value (take 4 d2);
      comm = take 16 d3;
      cpu = le_value (take 4 d4);
      type = event_type (le_value (take 4 d5));
      classification = latency_class (le_value (take 4 d6));
      duration_ns = le_value (take 8 d7);
      syscall_id = le_value (take 8 d8);
      user_stack_id = signed64 (le_value (take 8 d9));
      kern_stack_id = signed64 (le_value (take 8 d10));
      flags = le_value (take 4 d11);
    }

-- The result, and the event after the call, which a failure leaves as it was.
unfoldable pub deserialize_event : List ℕ → Event → Bool × Event
unfolding event_object
deserialize_event bytes ev =
    if ltb (length bytes) event_size then (false, ev) else (true, event_object bytes)
