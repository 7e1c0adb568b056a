-- ===== src/Ksr/RoundTrip.antt =====
-- What is read back from a serialized header or event.
use kernel_scope.Prelude.{
  ℕ, ◌≡◌, arith, List, ◌++◌, length, take, drop, take-append_exact, drop-append_exact, true,
  length-append, append_assoc, append-nil, [],
}
use kernel_scope.Prelude.Int.{unsigned64, signed64-unsigned64, unsigned64-lt}
use kernel_scope.Prelude.Bytes.{le_value-le_bytes, take-le_bytes, drop-le_bytes, length-le_bytes}
use kernel_scope.Event.{Event, event_type_value, latency_class_value}
use kernel_scope.Event.Valid.{
  IsEvent, event_type-event_type_value, event_type_value-lt, latency_class-latency_class_value,
  latency_class_value-lt,
}
use kernel_scope.Ksr.{Padding, serialize_event, event_object, deserialize_event, event_size}

pub record IsPadding (p : Padding) : Type 0 where
  pub inner : length p.inner ≡ 4
  pub tail : length p.tail ≡ 4

module _ (p : Padding) (ev : Event) (hp : IsPadding p) (he : IsEvent ev) where
  pub length-serialize_event : length (serialize_event p ev) ≡ event_size
  unfolding serialize_event
  length-serialize_event = simp (length-append, length-le_bytes, hp.inner, hp.tail, he.comm_length)

  take-comm : (ys : List ℕ) → take 16 (ev.comm ++ ys) ≡ ev.comm
  take-comm ys = take-append_exact ev.comm ys 16 he.comm_length

  drop-comm : (ys : List ℕ) → drop 16 (ev.comm ++ ys) ≡ ys
  drop-comm ys = drop-append_exact ev.comm ys 16 he.comm_length

  drop-inner : (ys : List ℕ) → drop 4 (p.inner ++ ys) ≡ ys
  drop-inner ys = drop-append_exact p.inner ys 4 hp.inner

  -- With more behind it, as in a file.
  pub event_object-serialize_event :
      (rest : List ℕ) → event_object (serialize_event p ev ++ rest) ≡ ev
  unfolding event_object serialize_event
  event_object-serialize_event rest = simp (
    append_assoc,
    take-le_bytes,
    drop-le_bytes,
    take-comm,
    drop-comm,
    drop-inner,
    le_value-le_bytes 8 ev.timestamp_ns (omega arith),
    le_value-le_bytes 4 ev.pid (omega arith),
    le_value-le_bytes 4 ev.tid (omega arith),
    le_value-le_bytes 4 ev.cpu (omega arith),
    le_value-le_bytes 4 (event_type_value ev.type) (event_type_value-lt ev.type he.type),
    le_value-le_bytes 4 (latency_class_value ev.classification)
        (latency_class_value-lt ev.classification he.classification),
    le_value-le_bytes 8 ev.duration_ns (omega arith),
    le_value-le_bytes 8 ev.syscall_id (omega arith),
    le_value-le_bytes 8 (unsigned64 ev.user_stack_id)
        (unsigned64-lt ev.user_stack_id he.user_stack_id),
    le_value-le_bytes 8 (unsigned64 ev.kern_stack_id)
        (unsigned64-lt ev.kern_stack_id he.kern_stack_id),
    le_value-le_bytes 4 ev.flags (omega arith),
    event_type-event_type_value ev.type he.type,
    latency_class-latency_class_value ev.classification he.classification,
    signed64-unsigned64 ev.user_stack_id he.user_stack_id,
    signed64-unsigned64 ev.kern_stack_id he.kern_stack_id,
  )

  -- Whatever the padding holds, the event that is read back is the event that was written.
  pub deserialize_event-serialize_event :
      (old : Event) → deserialize_event (serialize_event p ev) old ≡ (true, ev)
  unfolding deserialize_event
  deserialize_event-serialize_event old =
      let whole : event_object (serialize_event p ev) ≡ ev =
        rw append-nil at (event_object-serialize_event []) in
      rw (length-serialize_event, whole)
