-- ===== src/Aggregator/Tests.antt =====
-- Runs of the aggregator.
use kernel_scope.Prelude.{◌≡◌, arith, List, [], ◌∷◌, map, length, sum, some, none, ◌⊎◌, nat_eq}
use kernel_scope.Prelude.Assoc.{lookup, values}
use kernel_scope.Prelude.Sorting.{Largest}
use kernel_scope.Aggregator.Stats.{SyscallStats, StackStats}
use kernel_scope.Event.{Event}
use kernel_scope.Event.Examples.{futex, slice}
use kernel_scope.Aggregator.{after}
use kernel_scope.Aggregator.Stats.{ProcessStats}
use kernel_scope.Aggregator.Queries.{
  SortBy, top_processes, top_threads, top_syscalls, top_stacks, process_rank, thread_rank,
  top_processes-Largest, top_queries-Largest,
}
use kernel_scope.Aggregator.Processes.{events_of, ProcessSummary, process-summary}
use kernel_scope.Aggregator.Totals.{
  time, timed_events, blocking_events, process_time, thread_time, after-time, after-count,
}

abbrev observed : List Event
observed = futex ∷ slice ∷ []

process-summary_example :
    ((events_of 7 observed ≡ []) × (lookup 7 (after observed).procs ≡ none))
    ⊎ ((ev : Event) × (rest : List Event) × (p : ProcessStats) × (events_of 7 observed ≡ ev ∷ rest)
        × (lookup 7 (after observed).procs ≡ some p)
        × ProcessSummary 7 ev rest p)
process-summary_example = process-summary 7 observed

after-time_example :
    (sum (map process_time (values (after observed).procs)) ≡ time (timed_events observed))
    × (sum (map thread_time (values (after observed).threads)) ≡ time (timed_events observed))
    × (sum (map (λ s. s.total_ns) (values (after observed).syscalls))
        ≡ time (blocking_events observed))
after-time_example = after-time observed (omega arith)

after-count_example :
    (sum (map (λ p. p.slow_event_count) (values (after observed).procs))
      ≡ length (timed_events observed))
    × (sum (map (λ t. t.slow_event_count) (values (after observed).threads))
        ≡ length (timed_events observed))
    × (sum (map (λ s. s.count) (values (after observed).syscalls))
        ≡ length (blocking_events observed))
after-count_example = after-count observed (omega arith)

top_processes-Largest_example :
    Largest
      (process_rank SortBy.max_latency)
      1
      (values (after observed).procs)
      (top_processes (after observed) 1 SortBy.max_latency)
top_processes-Largest_example = top_processes-Largest (after observed) 1 SortBy.max_latency

top_queries-Largest_example :
    Largest
      (thread_rank SortBy.event_count)
      1
      (values (after observed).threads)
      (top_threads (after observed) 1 SortBy.event_count)
    × Largest
        (λ (s : SyscallStats). s.total_ns)
        1
        (values (after observed).syscalls)
        (top_syscalls (after observed) 1)
    × Largest
        (λ (s : StackStats). s.total_ns)
        1
        (values (after observed).stacks)
        (top_stacks (after observed) 1)
top_queries-Largest_example = top_queries-Largest (after observed) 1 SortBy.event_count
