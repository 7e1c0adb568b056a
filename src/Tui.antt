-- ===== src/Tui.antt =====
-- The terminal interface: src/tui/. A screen holds the values that its elements show, in front of their
-- formatting, with the styles that depend on these values.
pub mod App
use kernel_scope.Prelude.{
  ℕ, ◌+◌, ◌-◌, ltb, leb, ◌==◌, if◌then◌else◌, Bool, List, [], ◌∷◌, map, length, Option, none, some,
}
use kernel_scope.Prelude.Int.{ℤ}
use kernel_scope.Event.{EventType}
use kernel_scope.Histogram.{DoubleArithmetic, percentile}
use kernel_scope.Decoder.Syscalls.{syscall_name}
use kernel_scope.Aggregator.{Aggregator, total_events}
use kernel_scope.Aggregator.Stats.{ProcessStats, ThreadStats, SyscallStats, StackStats}
use kernel_scope.Aggregator.Queries.{SortBy, top_processes, top_threads, top_syscalls, top_stacks}
use kernel_scope.Symbols.Symbolizer.{
  Environment, Symbolizer, ResolvedFrame, resolve_stack, format_frame,
}
use kernel_scope.Bpf.Bridge.{SkeletonBridge, TaskKey, active_syscall_count, sched_state_count}
use kernel_scope.Bpf.Collector.{Collector, events_received, events_lost}
use kernel_scope.Commands.{Config}
use kernel_scope.Commands.Tables.{average, read_addrs}

pub data Style : Type 0 where
  bright_red red yellow white dim bold green gray : Style

unfoldable pub latency_color : ℕ → Style
latency_color ns =
    if leb 10_000_000_000 ns
    then Style.bright_red
    else if leb 1_000_000_000 ns
    then Style.red
    else if leb 100_000_000 ns
    then Style.yellow
    else if leb 10_000_000 ns
    then Style.white
    else Style.dim

-- A number of nanoseconds with its colour.
abbrev pub coloured : ℕ → ℕ × Style
coloured ns = (ns, latency_color ns)

pub record ProcessCells : Type 0 where
  pub pid : ℕ
  pub comm : List ℕ
  pub syscall : ℕ × Style
  pub offcpu : ℕ × Style
  pub max : ℕ × Style
  pub events : ℕ
  pub p95_ns : ℕ

-- The rows of a table; where there are none, a line says so.
pub data Table (A : Type 0) : Type 0 where
  no_data : Table A
  rows : A → List A → Table A

abbrev pub table_of : {A : Type 0} → List A → Table A
table_of [] = no_data
table_of (a ∷ more) = rows a more

unfoldable pub process_cells : DoubleArithmetic → ProcessStats → ProcessCells
unfolding latency_color
process_cells d p = record {
  pid = p.pid;
  comm = p.comm;
  syscall = coloured p.total_syscall_ns;
  offcpu = coloured p.total_offcpu_ns;
  max = coloured p.max_latency_ns;
  events = p.slow_event_count;
  p95_ns = percentile d p.latency_hist 95;
}

unfoldable pub render_process_table : DoubleArithmetic → List ProcessStats → Table ProcessCells
unfolding process_cells
render_process_table d procs = table_of (map (process_cells d) procs)

pub record SyscallCells : Type 0 where
  pub name : List ℕ
  pub count : ℕ
  pub total : ℕ × Style
  pub avg_ns : ℕ
  pub p95_ns : ℕ
  pub max : ℕ × Style
  pub pids : ℕ

unfoldable pub syscall_cells : DoubleArithmetic → SyscallStats → SyscallCells
unfolding latency_color average
syscall_cells d s = record {
  name = syscall_name s.syscall_id;
  count = s.count;
  total = coloured s.total_ns;
  avg_ns = average s;
  p95_ns = percentile d s.latency_hist 95;
  max = coloured s.max_ns;
  pids = length s.affected_pids;
}

unfoldable pub render_syscall_table : DoubleArithmetic → List SyscallStats → Table SyscallCells
unfolding syscall_cells
render_syscall_table d scs = table_of (map (syscall_cells d) scs)

pub record ThreadCells : Type 0 where
  pub pid : ℕ
  pub tid : ℕ
  pub comm : List ℕ
  pub syscall_ns : ℕ
  pub offcpu_ns : ℕ
  pub max_ns : ℕ
  pub events : ℕ

abbrev pub thread_cells : ThreadStats → ThreadCells
thread_cells t = record {
  pid = t.pid;
  tid = t.tid;
  comm = t.comm;
  syscall_ns = t.total_syscall_ns;
  offcpu_ns = t.total_offcpu_ns;
  max_ns = t.max_latency_ns;
  events = t.slow_event_count;
}

pub record StackCells : Type 0 where
  pub number : ℕ
  pub stack_id : ℤ
  pub total_ns : ℕ
  pub count : ℕ
  pub type : EventType
  pub lines : List (List ℕ × Style)
  pub more : Option ℕ

-- The lines of the frames from number f on; the loop stops at 8.
unfoldable pub styled_lines : ℕ → List ResolvedFrame → List (List ℕ × Style)
styled_lines f [] = []
styled_lines f (frame ∷ frames) =
    let rest = styled_lines (f + 1) frames in
    if ltb f 8
    then (format_frame frame f, if frame.resolved then Style.white else Style.gray) ∷ rest
    else []

abbrev pub hidden : List ResolvedFrame → Option ℕ
hidden frames = if ltb 8 (length frames) then some (length frames - 8) else none

abbrev pub stack_cells : ℕ → StackStats → List ResolvedFrame → StackCells
stack_cells i st frames = record {
  number = i + 1;
  stack_id = st.stack_id;
  total_ns = st.total_ns;
  count = st.count;
  type = st.representative_type;
  lines = styled_lines 0 frames;
  more = hidden frames;
}

-- The loop over the stacks from index i on; the frames are looked up with the pid 0.
unfoldable pub cells_from :
    Environment
    → (ℤ → Option (List ℕ))
    → SkeletonBridge
    → ℕ
    → List StackStats
    → Symbolizer
    → List StackCells × Symbolizer
unfolding styled_lines
cells_from env lookup_elem bridge i [] sym = ([], sym)
cells_from env lookup_elem bridge i (st ∷ sts) sym =
    let (sym', frames) =
      resolve_stack env 0 (read_addrs env lookup_elem bridge st) st.is_kernel sym in
    let (cells, sym'') = cells_from env lookup_elem bridge (i + 1) sts sym' in
    (stack_cells i st frames ∷ cells, sym'')

abbrev pub lost_style : ℕ → Style
lost_style lost = if ltb 0 lost then Style.red else Style.green

-- The six screens.
pub data Content : Type 0 where
  overview :
      (events received : ℕ) (lost : ℕ × Style) → Table ProcessCells → Table SyscallCells → Content
  processes : Table ProcessCells → Content
  threads : Table ThreadCells → Content
  syscalls : Table SyscallCells → Content
  hot_stacks : List StackCells → Content
  diagnostics : (events received : ℕ) (lost : ℕ × Style) (active sched : Option ℕ) → Content
  unknown : Content

unfoldable pub render_overview : DoubleArithmetic → Aggregator → Collector Aggregator → Content
unfolding render_process_table render_syscall_table
render_overview d agg coll =
    overview (total_events agg) (events_received coll)
      (events_lost coll, lost_style (events_lost coll))
      (render_process_table d (top_processes agg 5 SortBy.total_latency))
      (render_syscall_table d (top_syscalls agg 5))

unfoldable pub render_processes : DoubleArithmetic → Aggregator → Config → Content
unfolding render_process_table
render_processes d agg cfg =
    processes (render_process_table d (top_processes agg cfg.top_n SortBy.total_latency))

unfoldable pub render_threads : Aggregator → Config → Content
render_threads agg cfg =
    threads (table_of (map thread_cells (top_threads agg cfg.top_n SortBy.total_latency)))

unfoldable pub render_syscalls : DoubleArithmetic → Aggregator → Config → Content
unfolding render_syscall_table
render_syscalls d agg cfg = syscalls (render_syscall_table d (top_syscalls agg cfg.top_n))

unfoldable pub render_hot_stacks :
    Environment
    → (ℤ → Option (List ℕ))
    → SkeletonBridge
    → Aggregator
    → Config
    → Symbolizer
    → Content × Symbolizer
unfolding cells_from
render_hot_stacks env lookup_elem bridge agg cfg sym =
    let (cells, sym') = cells_from env lookup_elem bridge 0 (top_stacks agg cfg.top_n) sym in
    (hot_stacks cells, sym')

-- The numbers of keys are counted on fuel, over what bpf_map_get_next_key answers for each map.
unfoldable pub render_diagnostics :
    ℕ
    → (TaskKey → Option TaskKey)
    → (TaskKey → Option TaskKey)
    → SkeletonBridge
    → Aggregator
    → Collector Aggregator
    → Content
render_diagnostics fuel next_active next_sched bridge agg coll =
    diagnostics (total_events agg) (events_received coll)
      (events_lost coll, lost_style (events_lost coll))
      (active_syscall_count fuel next_active bridge) (sched_state_count fuel next_sched bridge)
