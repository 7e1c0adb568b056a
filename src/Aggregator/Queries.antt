-- ===== src/Aggregator/Queries.antt =====
-- The queries for the first entries of each table: top_processes and its siblings.
use kernel_scope.Prelude.{ℕ, ◌+◌, ◌≡◌, refl, ltb, Bool, List, u64}
use kernel_scope.Prelude.Assoc.{values}
use kernel_scope.Prelude.Sorting.{Largest, larger, top_by, top_by-Largest}
use kernel_scope.Aggregator.{Aggregator}
use kernel_scope.Aggregator.Stats.{ProcessStats, ThreadStats, SyscallStats, StackStats}

pub data SortBy : Type 0 where
  total_latency offcpu_time max_latency event_count : SortBy

-- `cmp`: whether `a` belongs before `b`.
unfoldable pub process_before : SortBy → ProcessStats → ProcessStats → Bool
process_before SortBy.total_latency a b =
    ltb (u64 (b.total_syscall_ns + b.total_offcpu_ns))
      (u64 (a.total_syscall_ns + a.total_offcpu_ns))
process_before SortBy.offcpu_time a b = ltb b.total_offcpu_ns a.total_offcpu_ns
process_before SortBy.max_latency a b = ltb b.max_latency_ns a.max_latency_ns
process_before SortBy.event_count a b = ltb b.slow_event_count a.slow_event_count

unfoldable pub thread_before : SortBy → ThreadStats → ThreadStats → Bool
thread_before SortBy.total_latency a b =
    ltb (u64 (b.total_syscall_ns + b.total_offcpu_ns))
      (u64 (a.total_syscall_ns + a.total_offcpu_ns))
thread_before SortBy.offcpu_time a b = ltb b.total_offcpu_ns a.total_offcpu_ns
thread_before SortBy.max_latency a b = ltb b.max_latency_ns a.max_latency_ns
thread_before SortBy.event_count a b = ltb b.slow_event_count a.slow_event_count

unfoldable pub syscall_before : SyscallStats → SyscallStats → Bool
syscall_before a b = ltb b.total_ns a.total_ns

unfoldable pub stack_before : StackStats → StackStats → Bool
stack_before a b = ltb b.total_ns a.total_ns

unfoldable pub top_processes : Aggregator → ℕ → SortBy → List ProcessStats
top_processes a n by = top_by (process_before by) n (values a.procs)

unfoldable pub top_threads : Aggregator → ℕ → SortBy → List ThreadStats
top_threads a n by = top_by (thread_before by) n (values a.threads)

unfoldable pub top_syscalls : Aggregator → ℕ → List SyscallStats
top_syscalls a n = top_by syscall_before n (values a.syscalls)

unfoldable pub top_stacks : Aggregator → ℕ → List StackStats
top_stacks a n = top_by stack_before n (values a.stacks)

-- What the entries are ranked by.
abbrev pub process_rank : SortBy → ProcessStats → ℕ
process_rank SortBy.total_latency p = u64 (p.total_syscall_ns + p.total_offcpu_ns)
process_rank SortBy.offcpu_time p = p.total_offcpu_ns
process_rank SortBy.max_latency p = p.max_latency_ns
process_rank SortBy.event_count p = p.slow_event_count

abbrev pub thread_rank : SortBy → ThreadStats → ℕ
thread_rank SortBy.total_latency t = u64 (t.total_syscall_ns + t.total_offcpu_ns)
thread_rank SortBy.offcpu_time t = t.total_offcpu_ns
thread_rank SortBy.max_latency t = t.max_latency_ns
thread_rank SortBy.event_count t = t.slow_event_count

process_before-larger : (by : SortBy) → process_before by ≡ larger (process_rank by)
unfolding process_before
process_before-larger SortBy.total_latency = refl
process_before-larger SortBy.offcpu_time = refl
process_before-larger SortBy.max_latency = refl
process_before-larger SortBy.event_count = refl

thread_before-larger : (by : SortBy) → thread_before by ≡ larger (thread_rank by)
unfolding thread_before
thread_before-larger SortBy.total_latency = refl
thread_before-larger SortBy.offcpu_time = refl
thread_before-larger SortBy.max_latency = refl
thread_before-larger SortBy.event_count = refl

-- The query for processes returns min(n, size) entries of the table, each at most as often as it stands
-- there, the largest first, and no entry that is left out is larger than one that is returned: by the sum
-- of both times modulo 2 ^ 64, the off-CPU time, the longest event or the number of events, as is asked.
pub top_processes-Largest :
    (a : Aggregator) (n : ℕ) (by : SortBy)
    → Largest (process_rank by) n (values a.procs) (top_processes a n by)
unfolding top_processes
top_processes-Largest a n by =
    rw (process_before-larger by) (top_by-Largest (process_rank by) n (values a.procs))

-- The queries for threads, system calls and stacks return min(n, size) entries of their table, each at
-- most as often as it stands there, the largest first, and no entry that is left out is larger than one
-- that is returned: threads by one of the four numbers, as is asked, system calls and stacks by their
-- total time.
pub top_queries-Largest :
    (a : Aggregator) (n : ℕ) (by : SortBy)
    → Largest (thread_rank by) n (values a.threads) (top_threads a n by)
      × Largest (λ (s : SyscallStats). s.total_ns) n (values a.syscalls) (top_syscalls a n)
      × Largest (λ (s : StackStats). s.total_ns) n (values a.stacks) (top_stacks a n)
unfolding top_threads top_syscalls top_stacks syscall_before stack_before
top_queries-Largest a n by = (
  rw (thread_before-larger by) (top_by-Largest (thread_rank by) n (values a.threads)),
  top_by-Largest (λ (s : SyscallStats). s.total_ns) n (values a.syscalls),
  top_by-Largest (λ (s : StackStats). s.total_ns) n (values a.stacks),
)
