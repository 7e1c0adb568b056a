-- ===== src/Exporters/Json.antt =====
-- The documents of the exporters to JSON: src/export/json_export.cpp and otel_export.cpp, in front of
-- dump(2), which is the library's. The library keeps the keys of an object sorted.
use kernel_scope.Prelude.{ℕ, List, [], ◌∷◌, map, String}
use kernel_scope.Prelude.Assoc.{values}
use kernel_scope.Decoder.Syscalls.{codes, syscall_name}
use kernel_scope.Histogram.{DoubleArithmetic, percentile}
use kernel_scope.Aggregator.{Aggregator, total_events}
use kernel_scope.Aggregator.Stats.{ProcessStats, SyscallStats}
use kernel_scope.Commands.Tables.{average}

pub data Value : Type 0 where
  number : ℕ → Value
  text : List ℕ → Value
  numbers : List ℕ → Value

abbrev pub Object : Type 0
Object = List (String × Value)

pub record Snapshot : Type 0 where
  pub version : List ℕ
  pub format : List ℕ
  pub processes : List Object
  pub syscalls : List Object
  pub diagnostics : Object

pub record Span : Type 0 where
  pub resource : Object
  pub scope : Object
  pub name : List ℕ
  pub kind : List ℕ
  pub attributes : Object

pub record TraceSummary : Type 0 where
  pub schema_url : List ℕ
  pub resource_spans : List Span

module _ (d : DoubleArithmetic) where
  unfoldable pub process_object : ProcessStats → Object
  process_object ps =
      ("pid", number ps.pid)
      ∷ ("comm", text ps.comm)
      ∷ ("total_syscall_ns", number ps.total_syscall_ns)
      ∷ ("total_offcpu_ns", number ps.total_offcpu_ns)
      ∷ ("max_latency_ns", number ps.max_latency_ns)
      ∷ ("slow_event_count", number ps.slow_event_count)
      ∷ ("p50_ns", number (percentile d ps.latency_hist 50))
      ∷ ("p95_ns", number (percentile d ps.latency_hist 95))
      ∷ ("p99_ns", number (percentile d ps.latency_hist 99))
      ∷ []

  unfoldable pub syscall_object : SyscallStats → Object
  unfolding average
  syscall_object sc =
      ("syscall", text (syscall_name sc.syscall_id))
      ∷ ("syscall_id", number sc.syscall_id)
      ∷ ("count", number sc.count)
      ∷ ("total_ns", number sc.total_ns)
      ∷ ("avg_ns", number (average sc))
      ∷ ("max_ns", number sc.max_ns)
      ∷ ("p95_ns", number (percentile d sc.latency_hist 95))
      ∷ ("affected_pids", numbers sc.affected_pids)
      ∷ []

  unfoldable pub export_json : Aggregator → Snapshot
  unfolding process_object syscall_object
  export_json agg = record {
    version = codes "1.0.0";
    format = codes "kscope-snapshot";
    processes = map process_object (values agg.procs);
    syscalls = map syscall_object (values agg.syscalls);
    diagnostics = ("total_events", number (total_events agg)) ∷ [];
  }

  -- An attribute is its key and its value; the kind of the value says which key of OTel stands around it.
  unfoldable pub span : ProcessStats → Span
  span ps = record {
    resource = ("service.name", text ps.comm) ∷ ("service.instance.id", number ps.pid) ∷ [];
    scope = ("name", text (codes "kscope")) ∷ ("version", text (codes "1.0.0")) ∷ [];
    name = codes "process.latency_summary";
    kind = codes "SPAN_KIND_INTERNAL";
    attributes =
        ("kscope.total_syscall_ns", number ps.total_syscall_ns)
        ∷ ("kscope.total_offcpu_ns", number ps.total_offcpu_ns)
        ∷ ("kscope.max_latency_ns", number ps.max_latency_ns)
        ∷ ("kscope.event_count", number ps.slow_event_count)
        ∷ ("kscope.p95_ns", number (percentile d ps.latency_hist 95))
        ∷ ("kscope.p99_ns", number (percentile d ps.latency_hist 99))
        ∷ [];
  }

  unfoldable pub export_otel : Aggregator → TraceSummary
  unfolding span
  export_otel agg = record {
    schema_url = codes "https://opentelemetry.io/schemas/1.21.0";
    resource_spans = map span (values agg.procs);
  }
