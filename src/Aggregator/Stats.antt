-- ===== src/Aggregator/Stats.antt =====
-- The entries of the aggregator's tables, and what one event changes in an entry.
use kernel_scope.Prelude.{
  ℕ, ◌+◌, ltb, ◌==◌, if◌then◌else◌, Bool, true, false, List, [], ◌∷◌, u32, u64,
}
use kernel_scope.Prelude.Int.{ℤ, pos}
use kernel_scope.Event.{Event, EventType, comm_str}
use kernel_scope.Histogram
use kernel_scope.Histogram.{Histogram, record_value}

pub record ThreadStats : Type 0 where
  pub pid : ℕ
  pub tid : ℕ
  pub comm : List ℕ
  pub total_syscall_ns : ℕ
  pub total_offcpu_ns : ℕ
  pub max_latency_ns : ℕ
  pub slow_event_count : ℕ
  pub latency_hist : Histogram

pub record ProcessStats : Type 0 where
  pub pid : ℕ
  pub comm : List ℕ
  pub total_syscall_ns : ℕ
  pub total_offcpu_ns : ℕ
  pub max_latency_ns : ℕ
  pub slow_event_count : ℕ
  pub latency_hist : Histogram

-- `affected_pids` is a std::set: ascending, and without duplicates.
pub record SyscallStats : Type 0 where
  pub syscall_id : ℕ
  pub count : ℕ
  pub total_ns : ℕ
  pub max_ns : ℕ
  pub latency_hist : Histogram
  pub affected_pids : List ℕ

pub record StackStats : Type 0 where
  pub stack_id : ℤ
  pub total_ns : ℕ
  pub count : ℕ
  pub pid : ℕ
  pub representative_type : EventType
  pub is_kernel : Bool

-- The entries that `operator[]` makes.
unfoldable pub no_thread : ThreadStats
no_thread = record {
  pid = 0;
  tid = 0;
  comm = [];
  total_syscall_ns = 0;
  total_offcpu_ns = 0;
  max_latency_ns = 0;
  slow_event_count = 0;
  latency_hist = Histogram.empty;
}

unfoldable pub no_process : ProcessStats
no_process = record {
  pid = 0;
  comm = [];
  total_syscall_ns = 0;
  total_offcpu_ns = 0;
  max_latency_ns = 0;
  slow_event_count = 0;
  latency_hist = Histogram.empty;
}

unfoldable pub no_syscall : SyscallStats
no_syscall = record {
  syscall_id = 0;
  count = 0;
  total_ns = 0;
  max_ns = 0;
  latency_hist = Histogram.empty;
  affected_pids = [];
}

unfoldable pub no_stack : StackStats
no_stack = record {
  stack_id = pos 0;
  total_ns = 0;
  count = 0;
  pid = 0;
  representative_type = EventType.none;
  is_kernel = false;
}

abbrev pub is_offcpu : EventType → Bool
is_offcpu EventType.offcpu_slice = true
is_offcpu _ = false

abbrev pub is_none : EventType → Bool
is_none EventType.none = true
is_none _ = false

-- What update_process does with `p`.
unfoldable pub change_process : Event → ProcessStats → ProcessStats
change_process ev p = record {
  pid = ev.pid;
  comm = comm_str ev;
  total_syscall_ns =
      if is_offcpu ev.type then p.total_syscall_ns else u64 (p.total_syscall_ns + ev.duration_ns);
  total_offcpu_ns =
      if is_offcpu ev.type then u64 (p.total_offcpu_ns + ev.duration_ns) else p.total_offcpu_ns;
  max_latency_ns = if ltb p.max_latency_ns ev.duration_ns then ev.duration_ns else p.max_latency_ns;
  slow_event_count = u32 (p.slow_event_count + 1);
  latency_hist = record_value p.latency_hist ev.duration_ns;
}

-- What update_thread does with `t`.
unfoldable pub change_thread : Event → ThreadStats → ThreadStats
change_thread ev t = record {
  pid = ev.pid;
  tid = ev.tid;
  comm = comm_str ev;
  total_syscall_ns =
      if is_offcpu ev.type then t.total_syscall_ns else u64 (t.total_syscall_ns + ev.duration_ns);
  total_offcpu_ns =
      if is_offcpu ev.type then u64 (t.total_offcpu_ns + ev.duration_ns) else t.total_offcpu_ns;
  max_latency_ns = if ltb t.max_latency_ns ev.duration_ns then ev.duration_ns else t.max_latency_ns;
  slow_event_count = u32 (t.slow_event_count + 1);
  latency_hist = record_value t.latency_hist ev.duration_ns;
}

-- std::set::insert.
unfoldable pub insert : ℕ → List ℕ → List ℕ
insert n [] = n ∷ []
insert n (m ∷ ms) =
    let rest = m ∷ insert n ms in if n == m then m ∷ ms else if ltb n m then n ∷ m ∷ ms else rest

-- What update_syscall does with `s`.
unfoldable pub change_syscall : Event → SyscallStats → SyscallStats
change_syscall ev s = record {
  syscall_id = ev.syscall_id;
  count = u64 (s.count + 1);
  total_ns = u64 (s.total_ns + ev.duration_ns);
  max_ns = if ltb s.max_ns ev.duration_ns then ev.duration_ns else s.max_ns;
  latency_hist = record_value s.latency_hist ev.duration_ns;
  affected_pids = insert ev.pid s.affected_pids;
}

-- One call of the lambda `add` in update_stack: the event, and the two arguments.
pub record Contribution : Type 0 where
  pub event : Event
  pub stack_id : ℤ
  pub is_kernel : Bool

-- What `add` does with `st`.
unfoldable pub change_stack : Contribution → StackStats → StackStats
change_stack c st = record {
  stack_id = c.stack_id;
  total_ns = u64 (st.total_ns + c.event.duration_ns);
  count = u64 (st.count + 1);
  pid = if st.pid == 0 then c.event.pid else st.pid;
  representative_type =
      if is_none st.representative_type then c.event.type else st.representative_type;
  is_kernel = c.is_kernel;
}
