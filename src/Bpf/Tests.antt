-- ===== src/Bpf/Tests.antt =====
-- Runs of the loader, the collector and the bridge.
use kernel_scope.Prelude.{
  ℕ, zero, suc, refl, arith, true, List, [], ◌∷◌, if◌then◌else◌, replicate, Option, some, none, All,
}
use kernel_scope.Prelude.Int.{pos}
use kernel_scope.Prelude.Bytes.{IsByte}
use kernel_scope.Aggregator.{Aggregator, empty, process_event}
use kernel_scope.Bpf.Loader
use kernel_scope.Bpf.Loader.{write_comm}
use kernel_scope.Bpf.Collector.{Collector, poll}
use kernel_scope.Bpf.Collector.Delivery.{Delivered, poll-Delivered}
use kernel_scope.Bpf.Bridge.{TaskKey, zero_key}
use kernel_scope.Tracer.{task_key_eq}

abbrev collector : Collector Aggregator
collector = record {
  loader = Loader.new;
  rb = true;
  callback = some process_event;
  running = true;
  received = 0;
  decode_errors = 0;
}

-- One record that is too short, and one event.
abbrev raws : List (List ℕ)
raws = (1 ∷ []) ∷ replicate 88 1 ∷ []

raws-IsByte : All (All IsByte) raws
raws-IsByte = ((omega arith, tt), (All-ones 88, tt))
  where
    All-ones : (n : ℕ) → All IsByte (replicate n 1)
    All-ones zero = tt
    All-ones (suc n) = (omega arith, All-ones n)

poll-Delivered_example : Delivered raws collector empty (poll raws (pos 2) "" collector empty).0
poll-Delivered_example =
    poll-Delivered raws (pos 2) "" collector empty refl refl (omega arith) (omega arith)

-- A map with the key 0 alone, of which no key is counted.
abbrev next_key : TaskKey → Option TaskKey
next_key key = if task_key_eq.beq zero_key key then none else some zero_key
