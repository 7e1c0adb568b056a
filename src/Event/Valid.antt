-- ===== src/Event/Valid.antt =====
-- The values that an object of type Event can have: each field in the range of its C++ type.
use kernel_scope.Prelude.{ℕ, ◌≤◌, ◌<◌, ◌≡◌, refl, arith, length, All, u32_mod, u64_mod}
use kernel_scope.Prelude.Int.{IsI64}
use kernel_scope.Prelude.Bytes.{IsByte}
use kernel_scope.Event.{
  EventType, LatencyClass, event_type, event_type_value, latency_class, latency_class_value, Event,
  comm_len,
}

-- An unnamed value is one that no enumerator has.
abbrev pub IsEventType : EventType → Type 0
IsEventType (EventType.unnamed n) = (9 ≤ n) × (n < u32_mod)
IsEventType _ = Unit {0}

abbrev pub IsLatencyClass : LatencyClass → Type 0
IsLatencyClass (LatencyClass.unnamed n) = (7 ≤ n) × (n < u32_mod)
IsLatencyClass _ = Unit {0}

pub record IsEvent (ev : Event) : Type 0 where
  pub timestamp_ns : ev.timestamp_ns < u64_mod
  pub pid : ev.pid < u32_mod
  pub tid : ev.tid < u32_mod
  pub comm_length : length ev.comm ≡ comm_len
  pub comm_bytes : All IsByte ev.comm
  pub cpu : ev.cpu < u32_mod
  pub type : IsEventType ev.type
  pub classification : IsLatencyClass ev.classification
  pub duration_ns : ev.duration_ns < u64_mod
  pub syscall_id : ev.syscall_id < u64_mod
  pub user_stack_id : IsI64 ev.user_stack_id
  pub kern_stack_id : IsI64 ev.kern_stack_id
  pub flags : ev.flags < u32_mod

pub event_type-event_type_value :
    (t : EventType) → IsEventType t → event_type (event_type_value t) ≡ t
unfolding event_type event_type_value
event_type-event_type_value (EventType.unnamed n) h = ground arith
event_type-event_type_value _ h = refl

pub event_type_value-lt : (t : EventType) → IsEventType t → event_type_value t < u32_mod
unfolding event_type_value
event_type_value-lt (EventType.unnamed n) h = omega arith
event_type_value-lt _ h = omega arith

pub event_type-IsEventType : (n : ℕ) → n < u32_mod → IsEventType (event_type n)
unfolding event_type
event_type-IsEventType n h = ground arith

pub latency_class-latency_class_value :
    (c : LatencyClass) → IsLatencyClass c → latency_class (latency_class_value c) ≡ c
unfolding latency_class latency_class_value
latency_class-latency_class_value (LatencyClass.unnamed n) h = ground arith
latency_class-latency_class_value _ h = refl

pub latency_class_value-lt : (c : LatencyClass) → IsLatencyClass c → latency_class_value c < u32_mod
unfolding latency_class_value
latency_class_value-lt (LatencyClass.unnamed n) h = omega arith
latency_class_value-lt _ h = omega arith

pub latency_class-IsLatencyClass : (n : ℕ) → n < u32_mod → IsLatencyClass (latency_class n)
unfolding latency_class
latency_class-IsLatencyClass n h = ground arith
