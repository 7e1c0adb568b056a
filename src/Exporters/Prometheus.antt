-- ===== src/Exporters/Prometheus.antt =====
-- The Prometheus text format: src/export/prometheus_export.cpp. Texts are their bytes.
pub mod Samples
mod Tests
use kernel_scope.Prelude.{ℕ, ◌==◌, if◌then◌else◌, List, [], ◌∷◌, ◌++◌, String}
use kernel_scope.Prelude.Assoc.{values}
use kernel_scope.Decoder.Syscalls.{codes, to_string, syscall_name}
use kernel_scope.Aggregator.{Aggregator}
use kernel_scope.Aggregator.Stats.{ProcessStats, SyscallStats}

-- The backslash, the quotation mark, the new line, and the n.
abbrev pub backslash : ℕ
backslash = 0x5c

abbrev pub quote : ℕ
quote = 0x22

abbrev pub new_line : ℕ
new_line = 0x0a

abbrev pub letter_n : ℕ
letter_n = 0x6e

unfoldable pub escape_char : ℕ → List ℕ
escape_char c =
    if c == backslash
    then backslash ∷ backslash ∷ []
    else if c == quote
    then backslash ∷ quote ∷ []
    else if c == new_line
    then backslash ∷ letter_n ∷ []
    else c ∷ []

unfoldable pub escape_label : List ℕ → List ℕ
unfolding escape_char
escape_label [] = []
escape_label (c ∷ cs) = escape_char c ++ escape_label cs

-- The labels of a process, and of a system call.
unfoldable pub process_labels : ProcessStats → List ℕ
unfolding escape_label
process_labels p =
    codes "{pid="
    ++ quote ∷ to_string p.pid
    ++ quote ∷ codes ",comm="
    ++ quote ∷ escape_label p.comm
    ++ quote ∷ codes "} "

unfoldable pub syscall_labels : SyscallStats → List ℕ
syscall_labels s = codes "{syscall=" ++ quote ∷ syscall_name s.syscall_id ++ quote ∷ codes "} "

-- The two lines in front of the samples of a metric.
unfoldable pub metric_header : String → String → List ℕ
metric_header help type =
    codes "# HELP " ++ codes help ++ new_line ∷ codes "# TYPE " ++ codes type ++ new_line ∷ []

-- One line for each entry.
unfoldable pub sample_lines : {A : Type 0} → String → (A → List ℕ) → (A → List ℕ) → List A → List ℕ
sample_lines name labels value [] = []
sample_lines name labels value (a ∷ rest) =
    codes name ++ labels a ++ value a ++ new_line ∷ sample_lines name labels value rest

-- `seconds` is the text that std::format makes of a number of nanoseconds divided by 1e9, with nine
-- digits behind the point.
module _ (seconds : ℕ → List ℕ) where
  unfoldable pub export_prometheus : Aggregator → List ℕ
  unfolding process_labels syscall_labels metric_header sample_lines
  export_prometheus agg =
      metric_header "kscope_events_total Total slow events per process."
        "kscope_events_total counter"
      ++ sample_lines "kscope_events_total" process_labels (λ p. to_string p.slow_event_count)
          (values agg.procs)
      ++ metric_header "kscope_syscall_seconds_total Total syscall latency per process."
          "kscope_syscall_seconds_total counter"
      ++ sample_lines "kscope_syscall_seconds_total" process_labels
          (λ p. seconds p.total_syscall_ns) (values agg.procs)
      ++ metric_header "kscope_offcpu_seconds_total Total off-CPU time per process."
          "kscope_offcpu_seconds_total counter"
      ++ sample_lines "kscope_offcpu_seconds_total" process_labels (λ p. seconds p.total_offcpu_ns)
          (values agg.procs)
      ++ metric_header "kscope_max_latency_seconds Maximum single-event latency."
          "kscope_max_latency_seconds gauge"
      ++ sample_lines "kscope_max_latency_seconds" process_labels (λ p. seconds p.max_latency_ns)
          (values agg.procs)
      ++ metric_header "kscope_syscall_calls_total Syscall invocation count."
          "kscope_syscall_calls_total counter"
      ++ sample_lines "kscope_syscall_calls_total" syscall_labels (λ s. to_string s.count)
          (values agg.syscalls)
      ++ metric_header "kscope_syscall_duration_seconds_total Total time in syscall."
          "kscope_syscall_duration_seconds_total counter"
      ++ sample_lines "kscope_syscall_duration_seconds_total" syscall_labels
          (λ s. seconds s.total_ns) (values agg.syscalls)
