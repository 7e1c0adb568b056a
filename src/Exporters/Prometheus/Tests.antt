-- ===== src/Exporters/Prometheus/Tests.antt =====
-- A process with a name that has to be escaped.
use kernel_scope.Prelude.{◌≡◌, [], ◌∷◌, ◌++◌, some}
use kernel_scope.Histogram
use kernel_scope.Decoder.Syscalls.{to_string}
use kernel_scope.Aggregator.Stats.{ProcessStats}
use kernel_scope.Exporters.Prometheus.{quote, backslash, new_line, process_labels}
use kernel_scope.Exporters.Prometheus.Samples.{read_labels, read_labels-process_labels}

abbrev process : ProcessStats
process = record {
  pid = 4100;
  comm = 0x61 ∷ quote ∷ new_line ∷ backslash ∷ [];
  total_syscall_ns = 0;
  total_offcpu_ns = 0;
  max_latency_ns = 0;
  slow_event_count = 0;
  latency_hist = Histogram.empty;
}

read_labels-process_labels_example :
    read_labels (process_labels process ++ 0x30 ∷ new_line ∷ [])
    ≡ some (to_string 4100, 0x61 ∷ quote ∷ new_line ∷ backslash ∷ [], 0x30 ∷ new_line ∷ [])
read_labels-process_labels_example = read_labels-process_labels process (0x30 ∷ new_line ∷ [])
