-- ===== src/Decoder/Layout.antt =====
-- What a decoded event can hold.
use kernel_scope.Prelude.{
  ℕ, ◌≡◌, arith, List, length, take, drop, ltb, Bool-cases, inl, inr, some, none, ◌≤◌, ◌<◌, ◌^◌,
  All, All-take, All-drop, length-take, length-drop, ◌⊎◌,
}
use kernel_scope.Prelude.Int.{signed64-IsI64}
use kernel_scope.Prelude.Bytes.{IsByte, le_value-lt}
use kernel_scope.Event.{Event}
use kernel_scope.Event.Valid.{IsEvent, event_type-IsEventType, latency_class-IsLatencyClass}
use kernel_scope.Decoder.{decode_event, load, raw_event, copy_fields, raw_event_size}

load-lt : (n offset : ℕ) (raw : List ℕ) → All IsByte raw → load n offset raw < 256 ^ n
unfolding load
load-lt n offset raw h =
    le_value-lt n (take n (drop offset raw)) (All-take IsByte n _ (All-drop IsByte offset raw h))
      (omega (arith, length-take n (drop offset raw)))

copied-IsEvent :
    (raw : List ℕ)
    → All IsByte raw
    → raw_event_size ≤ length raw
    → IsEvent (copy_fields (raw_event raw))
unfolding copy_fields raw_event
copied-IsEvent raw h enough = record {
  timestamp_ns = load-lt 8 0 raw h;
  pid = load-lt 4 8 raw h;
  tid = load-lt 4 12 raw h;
  comm_length = omega (
    arith,
    length-take 16 (take 16 (drop 16 raw)),
    length-take 16 (drop 16 raw),
    length-drop 16 raw,
  );
  comm_bytes = All-take IsByte 16 _ (All-take IsByte 16 _ (All-drop IsByte 16 raw h));
  cpu = load-lt 4 32 raw h;
  type = event_type-IsEventType _ (load-lt 4 36 raw h);
  classification = latency_class-IsLatencyClass _ (load-lt 4 40 raw h);
  duration_ns = load-lt 8 48 raw h;
  syscall_id = load-lt 8 56 raw h;
  user_stack_id = signed64-IsI64 _ (load-lt 8 64 raw h);
  kern_stack_id = signed64-IsI64 _ (load-lt 8 72 raw h);
  flags = load-lt 4 80 raw h;
}

-- `decode_event` refuses exactly the inputs shorter than `struct event`, and on any other bytes it
-- returns an event whose fields are in the ranges of their types.
pub decode_event-IsEvent :
    (raw : List ℕ)
    → All IsByte raw
    → ((length raw < raw_event_size) × (decode_event raw ≡ none))
      ⊎ ((ev : Event) × (raw_event_size ≤ length raw) × (decode_event raw ≡ some ev) × IsEvent ev)
unfolding decode_event
decode_event-IsEvent raw h = elim (Bool-cases (ltb (length raw) raw_event_size)) [
  | inl short ↦ inl (ground arith, rw short)
  | inr enough ↦
      inr
        (copy_fields (raw_event raw), ground arith, rw enough, copied-IsEvent raw h (ground arith))
]
