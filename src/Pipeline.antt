-- ===== src/Pipeline.antt =====
-- From the handlers in the kernel to the statistics: bpf/kscope.bpf.c, the ring buffer, the collector
-- and the aggregator together.
pub mod Filtered
pub mod Times
mod Tests
use kernel_scope.Prelude.{
  ℕ, ◌≤◌, ◌<◌, ◌≡◌, refl, arith, ltb, le→ltb, List, [], ◌∷◌, map, length, fold, ap, ◌∙◌, u64_mod,
  String, true, some, none, false,
}
use kernel_scope.Prelude.Int.{ℤ}
use kernel_scope.Event.{Event}
use kernel_scope.Decoder.{RawEvent, raw_event, raw_event_size, copy_fields, decode_event}
use kernel_scope.Ksr.Replay.{call}
use kernel_scope.Aggregator.{Aggregator, empty, after}
use kernel_scope.Bpf.Collector.{Collector, poll, events_received, events_lost}
use kernel_scope.Bpf.Collector.Delivery.{Delivered}
use kernel_scope.Aggregator.{process_event}
use kernel_scope.Bpf.Collector.Delivery.{decoded, poll-Delivered}
use kernel_scope.Commands.{aggregate}
use kernel_scope.Commands.Aggregate.{fold-aggregate}

-- The records of the ring buffer are the events as they stand in memory.
abbrev pub IsMemory : List (List ℕ) → List RawEvent → Type 0
IsMemory [] [] = Unit {0}
IsMemory (raw ∷ raws) (e ∷ es) =
    (raw_event_size ≤ length raw) × (raw_event raw ≡ e) × IsMemory raws es
IsMemory _ _ = ⊥

-- A collector that is started, with the callback of the tables.
pub record IsStarted (c : Collector Aggregator) : Type 0 where
  pub callback : c.callback ≡ aggregate
  pub rb : c.rb ≡ true
  pub running : c.running ≡ true
  pub received : c.received < u64_mod
  pub decode_errors : c.decode_errors < u64_mod

abbrev pub copied : List RawEvent → List Event
copied es = map copy_fields es

decoded-IsMemory :
    (raws : List (List ℕ)) (es : List RawEvent) → IsMemory raws es → decoded raws ≡ copied es
unfolding decode_event
decoded-IsMemory [] [] h = refl
decoded-IsMemory [] (e ∷ es) h = absurd h
decoded-IsMemory (raw ∷ raws) [] h = absurd h
decoded-IsMemory (raw ∷ raws) (e ∷ es) (long, same, rest) =
    rw (le→ltb (length raw) raw_event_size long, decoded-IsMemory raws es rest)
      (ap (λ x. copy_fields x ∷ copied es) same)

-- The aggregator that a poll of these records leaves.
abbrev pub polled : List (List ℕ) → ℤ → String → Collector Aggregator → Aggregator
polled raws answer message c = (poll raws answer message c empty).0.1

pub polled-after :
    (raws : List (List ℕ)) (es : List RawEvent) (answer : ℤ) (message : String)
    (c : Collector Aggregator)
    → IsStarted c
    → IsMemory raws es
    → polled raws answer message c ≡ after (copied es)
polled-after raws es answer message c started memory =
    (poll-Delivered raws answer message c empty started.rb started.running started.received
      started.decode_errors).0
    ∙ ap (λ f. fold (call f) empty (decoded raws)) started.callback
    ∙ fold-aggregate (decoded raws) empty
    ∙ ap after (decoded-IsMemory raws es memory)

-- A poll of a started collector feeds the aggregator, and leaves the collector started.
pub poll-IsStarted :
    (raws : List (List ℕ)) (answer : ℤ) (message : String) (c : Collector Aggregator)
    (agg : Aggregator)
    → IsStarted c
    → ((poll raws answer message c agg).0.1 ≡ fold process_event agg (decoded raws))
      × IsStarted (poll raws answer message c agg).0.0
unfolding events_received events_lost
poll-IsStarted raws answer message c agg started =
    let d : Delivered raws c agg (poll raws answer message c agg).0 =
      poll-Delivered raws answer message c agg started.rb started.running started.received
        started.decode_errors in
    let (end, received, lost, callback, rb, running) = d in
    (
      end
          ∙ ap (λ f. fold (call f) agg (decoded raws)) started.callback
          ∙ fold-aggregate (decoded raws) agg,
      record {
        callback = callback ∙ started.callback;
        rb = rb ∙ started.rb;
        running = running ∙ started.running;
        received = omega (arith, received);
        decode_errors = omega (arith, lost);
      },
    )
