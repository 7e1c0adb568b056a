-- ===== src/Commands/Tables.antt =====
-- What the commands show: run_top, run_top_offcpu, run_top_syscalls and run_hot_stacks with their
-- tables, in src/cli/commands.cpp. A row holds the values of its columns, in front of their formatting.
pub mod Frames
mod Tests
use text.Mathlib.Text.{◌==◌}
use kernel_scope.Prelude.{
  ℕ, ◌+◌, ◌-◌, ◌/◌, ◌^◌, ltb, if◌then◌else◌, Bool, List, [], ◌∷◌, map, take, length, Option, none,
  some, u32,
}
use kernel_scope.Prelude.Int.{ℤ, pos, negsuc}
use kernel_scope.Event.{EventType}
use kernel_scope.Decoder.Syscalls.{syscall_name}
use kernel_scope.Histogram.{DoubleArithmetic, percentile}
use kernel_scope.Aggregator.{Aggregator}
use kernel_scope.Aggregator.Stats.{ProcessStats, SyscallStats, StackStats}
use kernel_scope.Aggregator.Queries.{SortBy, top_processes, top_syscalls, top_stacks}
use kernel_scope.Symbols.Symbolizer.{
  Environment, Symbolizer, ResolvedFrame, resolve_stack, format_frame, new_symbolizer,
}
use kernel_scope.Bpf.Bridge.{SkeletonBridge, read_stack}
use kernel_scope.Bpf.Loader
use kernel_scope.Commands.{Config, setup_bpf}
use kernel_scope.Commands.Polling.{Exit, and_finally}
use kernel_scope.Commands.Top.{Screen, TopState, LiveTop, live_tables}

-- `%-16.16s` cuts the name.
pub record ProcessRow : Type 0 where
  pub pid : ℕ
  pub comm : List ℕ
  pub syscall_ns : ℕ
  pub offcpu_ns : ℕ
  pub max_ns : ℕ
  pub events : ℕ
  pub p95_ns : ℕ

unfoldable pub process_row : DoubleArithmetic → ProcessStats → ProcessRow
process_row d p = record {
  pid = p.pid;
  comm = take 16 p.comm;
  syscall_ns = p.total_syscall_ns;
  offcpu_ns = p.total_offcpu_ns;
  max_ns = p.max_latency_ns;
  events = p.slow_event_count;
  p95_ns = percentile d p.latency_hist 95;
}

pub record SyscallRow : Type 0 where
  pub name : List ℕ
  pub count : ℕ
  pub total_ns : ℕ
  pub avg_ns : ℕ
  pub p95_ns : ℕ
  pub max_ns : ℕ
  pub pids : ℕ

-- `s.count > 0 ? s.total_ns / s.count : 0UL`.
unfoldable pub average : SyscallStats → ℕ
average s = if ltb 0 s.count then s.total_ns / s.count else 0

unfoldable pub syscall_row : DoubleArithmetic → SyscallStats → SyscallRow
unfolding average
syscall_row d s = record {
  name = syscall_name s.syscall_id;
  count = s.count;
  total_ns = s.total_ns;
  avg_ns = average s;
  p95_ns = percentile d s.latency_hist 95;
  max_ns = s.max_ns;
  pids = length s.affected_pids;
}

-- What print_process_table and print_syscall_table are called with.
unfoldable pub show_processes :
    DoubleArithmetic → Config → SortBy → Aggregator → Unit {0} → List ProcessRow × Unit {0}
unfolding process_row
show_processes d cfg by agg x = (map (process_row d) (top_processes agg cfg.top_n by), x)

unfoldable pub show_syscalls :
    DoubleArithmetic → Config → Aggregator → Unit {0} → List SyscallRow × Unit {0}
unfolding syscall_row
show_syscalls d cfg agg x = (map (syscall_row d) (top_syscalls agg cfg.top_n), x)

-- The screens, and the aggregator that is exported at the end where that is asked for.
unfoldable pub run_top :
    DoubleArithmetic → LiveTop → Config → Exit (List (Screen (List ProcessRow)) × Option Aggregator)
unfolding show_processes live_tables and_finally
run_top d v cfg =
    and_finally
      (λ (s : TopState (List ProcessRow) (Unit {0})).
        (s.screens, if cfg.json_output then some s.agg else none))
      (live_tables (show_processes d cfg SortBy.total_latency) tt v cfg)

unfoldable pub run_top_offcpu :
    DoubleArithmetic → LiveTop → Config → Exit (List (Screen (List ProcessRow)))
unfolding show_processes live_tables and_finally
run_top_offcpu d v cfg =
    and_finally (λ (s : TopState (List ProcessRow) (Unit {0})). s.screens)
      (live_tables (show_processes d cfg SortBy.offcpu_time) tt v cfg)

unfoldable pub run_top_syscalls :
    DoubleArithmetic → LiveTop → Config → Exit (List (Screen (List SyscallRow)))
unfolding show_syscalls live_tables and_finally
run_top_syscalls d v cfg =
    and_finally (λ (s : TopState (List SyscallRow) (Unit {0})). s.screens)
      (live_tables (show_syscalls d cfg) tt v cfg)

-- A line of the second table of run_replay.
pub record SyscallLine : Type 0 where
  pub name : List ℕ
  pub count : ℕ
  pub total_ns : ℕ
  pub avg_ns : ℕ
  pub max_ns : ℕ

unfoldable pub syscall_line : SyscallStats → SyscallLine
unfolding average
syscall_line s = record {
  name = syscall_name s.syscall_id;
  count = s.count;
  total_ns = s.total_ns;
  avg_ns = average s;
  max_ns = s.max_ns;
}

-- What run_replay prints of the aggregator: the JSON text of the aggregator, or two tables.
pub data Printed : Type 0 where
  json : Aggregator → Printed
  tables : List ProcessRow → List SyscallLine → Printed

unfoldable pub print_replay : DoubleArithmetic → Config → Aggregator → Printed
unfolding process_row syscall_line
print_replay d cfg agg =
    if cfg.json_output
    then json agg
    else tables (map (process_row d) (top_processes agg cfg.top_n SortBy.total_latency))
        (map syscall_line (top_syscalls agg cfg.top_n))

-- Which exporter run_export calls, and what for.
pub data Output : Type 0 where
  otel_text prometheus_text json_text : Aggregator → Output

unfoldable pub export_text : Config → Aggregator → Output
export_text cfg agg =
    if cfg.export_format == "otel"
    then otel_text agg
    else if cfg.export_format == "prometheus"
    then prometheus_text agg
    else json_text agg

-- static_cast<int32_t>: the low 32 bits, as a signed number.
abbrev pub low32 : ℤ → ℕ
low32 (pos n) = u32 n
low32 (negsuc n) = 2 ^ 32 - 1 - u32 n

unfoldable pub to_int32 : ℤ → ℤ
to_int32 z = if ltb (low32 z) (2 ^ 31) then pos (low32 z) else negsuc (2 ^ 32 - 1 - low32 z)

-- A stack with the lines of its frames.
pub record StackRow : Type 0 where
  pub number : ℕ
  pub stack_id : ℤ
  pub pid : ℕ
  pub total_ns : ℕ
  pub count : ℕ
  pub type : EventType
  pub is_kernel : Bool
  pub lines : List (List ℕ)

-- The lines of the frames from number f on; the loop stops at 8.
unfoldable pub frame_lines : ℕ → List ResolvedFrame → List (List ℕ)
frame_lines f [] = []
frame_lines f (frame ∷ frames) =
    let rest = frame_lines (f + 1) frames in if ltb f 8 then format_frame frame f ∷ rest else []

abbrev pub stack_row : ℕ → StackStats → List ResolvedFrame → StackRow
stack_row i st frames = record {
  number = i + 1;
  stack_id = st.stack_id;
  pid = st.pid;
  total_ns = st.total_ns;
  count = st.count;
  type = st.representative_type;
  is_kernel = st.is_kernel;
  lines = frame_lines 0 frames;
}

-- `lookup_elem` is the answer of bpf_map_lookup_elem on the map of stacks.
module _ (env : Environment) (lookup_elem : ℤ → Option (List ℕ)) (bridge : SkeletonBridge) where
  unfoldable pub read_addrs : StackStats → List ℕ
  unfolding to_int32
  read_addrs st = read_stack lookup_elem (to_int32 st.stack_id) bridge

  -- The loop over the stacks from index i on.
  unfoldable pub stack_rows : ℕ → List StackStats → Symbolizer → List StackRow × Symbolizer
  unfolding read_addrs frame_lines
  stack_rows i [] sym = ([], sym)
  stack_rows i (st ∷ sts) sym =
      let (sym', frames) = resolve_stack env st.pid (read_addrs st) st.is_kernel sym in
      let (rows, sym'') = stack_rows (i + 1) sts sym' in (stack_row i st frames ∷ rows, sym'')

  unfoldable pub show_stacks : Config → Aggregator → Symbolizer → List StackRow × Symbolizer
  unfolding stack_rows
  show_stacks cfg agg sym = stack_rows 0 (top_stacks agg cfg.top_n) sym

-- The next screen, with its number: the files and the map of stacks may be others on each screen.
unfoldable pub next_stacks :
    (ℕ → Environment)
    → (ℕ → ℤ → Option (List ℕ))
    → SkeletonBridge
    → Config
    → Aggregator
    → Symbolizer × ℕ
    → List StackRow × (Symbolizer × ℕ)
unfolding show_stacks
next_stacks env lookup_elem bridge cfg agg (sym, n) =
    let (rows, sym') = show_stacks (env n) (lookup_elem n) bridge cfg agg sym in
    (rows, (sym', n + 1))

-- The bridge is made with the loader that is set up.
unfoldable pub run_hot_stacks :
    (ℕ → Environment)
    → (ℕ → ℤ → Option (List ℕ))
    → LiveTop
    → Config
    → Exit (List (Screen (List StackRow)))
unfolding next_stacks live_tables and_finally
run_hot_stacks env lookup_elem v cfg =
    let (l, status) = setup_bpf v.setup cfg Loader.new in
    and_finally (λ (s : TopState (List StackRow) (Symbolizer × ℕ)). s.screens)
      (live_tables (next_stacks env lookup_elem (record { loader = l }) cfg) (new_symbolizer, 0) v
        cfg)
