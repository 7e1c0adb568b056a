-- ===== src/Bpf/Collector.antt =====
-- The collector: src/bpf/collector.hpp and collector.cpp.
pub mod Delivery
use kernel_scope.Prelude.{
  ℕ, ◌+◌, if◌then◌else◌, Bool, true, false, not, ◌||◌, ◌&&◌, List, [], ◌∷◌, Option, some, none, u64,
  String,
}
use kernel_scope.Prelude.Int.{ℤ, is_negative, int_eq, negsuc}
use kernel_scope.Errors.{ErrorCode, Status, ok, err, make_error}
use kernel_scope.Event.{Event}
use kernel_scope.Decoder.{decode_event}
use kernel_scope.Ksr.Replay.{Callback, call}
use kernel_scope.Bpf.Loader.{BpfLoader, ringbuf_fd}

-- `rb` says whether rb_ is not null.
pub record Collector {ℓ} (S : Type ℓ) : Type ℓ where
  pub loader : BpfLoader
  pub rb : Bool
  pub callback : Callback S
  pub running : Bool
  pub received : ℕ
  pub decode_errors : ℕ

abbrev pub eintr : ℤ
eintr = negsuc 3

module _ {ℓ} {S : Type ℓ} where
  unfoldable pub new : BpfLoader → Collector S
  new loader = record {
    loader = loader;
    rb = false;
    callback = none;
    running = false;
    received = 0;
    decode_errors = 0;
  }

  unfoldable pub set_callback : Callback S → Collector S → Collector S
  set_callback cb c = record c { callback = cb }

  -- The first argument says whether ring_buffer__new answers a buffer.
  unfoldable pub start : Bool → Collector S → Collector S × Status
  start created c =
      if is_negative (ringbuf_fd c.loader)
      then (c, err (make_error ErrorCode.bpf_map_error "invalid ring buffer fd"))
      else if not created
      then (
        record c { rb = false },
        err (make_error ErrorCode.bpf_map_error "ring_buffer__new() failed"),
      )
      else (record c { rb = true; running = true }, ok)

  unfoldable pub stop : Collector S → Collector S
  stop c = record c { running = false }

  -- What happens to an event, once it is decoded.
  unfoldable pub deliver : Option Event → Collector S → S → Collector S × S
  deliver none c s = (record c { decode_errors = u64 (c.decode_errors + 1) }, s)
  deliver (some ev) c s = (record c { received = u64 (c.received + 1) }, call c.callback s ev)

  unfoldable pub handle_event : List ℕ → Collector S → S → Collector S × S
  unfolding deliver
  handle_event raw c s = deliver (decode_event raw) c s

  -- ring_buffer__poll hands each record that is available to handle_event, in order.
  unfoldable pub handle_all : List (List ℕ) → Collector S → S → Collector S × S
  unfolding handle_event
  handle_all [] c s = (c, s)
  handle_all (raw ∷ raws) c s = let (c', s') = handle_event raw c s in handle_all raws c' s'

  -- The arguments are the records that are available, the answer of ring_buffer__poll and the message
  -- that std::format makes of it.
  unfoldable pub poll : List (List ℕ) → ℤ → String → Collector S → S → (Collector S × S) × Status
  unfolding handle_all
  poll raws answer message c s =
      if not c.rb || not c.running
      then ((c, s), ok)
      else if is_negative answer && not (int_eq.beq answer eintr)
      then (handle_all raws c s, err (make_error ErrorCode.bpf_map_error message))
      else (handle_all raws c s, ok)

  unfoldable pub events_received : Collector S → ℕ
  events_received c = c.received

  unfoldable pub events_lost : Collector S → ℕ
  events_lost c = c.decode_errors
