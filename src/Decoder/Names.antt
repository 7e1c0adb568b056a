-- ===== src/Decoder/Names.antt =====
-- The names of event types and latency classes: src/core/event_decoder.cpp.
use Prim.Native.String.{String}
use kernel_scope.Event.{EventType, LatencyClass}

unfoldable pub event_type_name : EventType → String
event_type_name EventType.none = "none"
event_type_name EventType.syscall_slow = "syscall_slow"
event_type_name EventType.offcpu_slice = "offcpu_slice"
event_type_name EventType.lock_wait = "lock_wait"
event_type_name EventType.io_wait = "io_wait"
event_type_name EventType.proc_exec = "proc_exec"
event_type_name EventType.proc_exit = "proc_exit"
event_type_name EventType.lost_samples = "lost_samples"
event_type_name EventType.diag = "diag"
event_type_name (EventType.unnamed n) = "unknown"

unfoldable pub latency_class_name : LatencyClass → String
latency_class_name LatencyClass.unknown = "unknown"
latency_class_name LatencyClass.on_cpu = "on_cpu"
latency_class_name LatencyClass.off_cpu = "off_cpu"
latency_class_name LatencyClass.syscall_blocked = "syscall_blocked"
latency_class_name LatencyClass.io_wait = "io_wait"
latency_class_name LatencyClass.lock_wait = "lock_wait"
latency_class_name LatencyClass.unknown_wait = "unknown_wait"
latency_class_name (LatencyClass.unnamed n) = "unknown"
