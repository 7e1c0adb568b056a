-- ===== src/Aggregator/Totals.antt =====
-- Sums over the tables: no event is lost, and none is counted twice.
use kernel_scope.Prelude.{
  ℕ, ◌+◌, ◌<◌, ◌≤◌, ◌≡◌, refl, arith, Bool, true, List, [], ◌∷◌, map, fold, keep, length, sum, u64,
  u32_mod, u64_mod, nat_eq,
}
use kernel_scope.Prelude.Assoc.{values}
use kernel_scope.Prelude.Keyed.{feed, sum-fold-empty}
use kernel_scope.Event.{Event}
use kernel_scope.Aggregator.{
  Aggregator, process_event, update_process, update_thread, update_syscall, update_stack, add_stack,
  empty, after, is_blocking, total_events, thread_key,
}
use kernel_scope.Aggregator.Processes.{timed, key, fold-procs}
use kernel_scope.Aggregator.Stats.{
  ProcessStats, ThreadStats, SyscallStats, no_process, no_thread, no_syscall, change_process,
  change_thread, change_syscall,
}

process_event-total : (a : Aggregator) (ev : Event) → (process_event a ev).total ≡ u64 (a.total + 1)
unfolding process_event update_process update_thread update_syscall update_stack add_stack
process_event-total a ev = ground arith

fold-total :
    (evs : List Event) (a : Aggregator)
    → a.total < u64_mod
    → (fold process_event a evs).total ≡ u64 (a.total + length evs)
fold-total [] a small = omega arith
fold-total (ev ∷ evs) a small =
    let one = process_event-total a ev in
    omega (arith, one, fold-total evs (process_event a ev) (omega (arith, one)))

-- The total number of events, of every type, modulo 2 ^ 64.
pub after-total_events : (evs : List Event) → total_events (after evs) ≡ u64 (length evs)
unfolding total_events empty
after-total_events evs = omega (arith, fold-total evs empty (omega arith))

abbrev blocking : Event → Bool
blocking ev = is_blocking ev.type

abbrev pub thread : Event → ℕ
thread ev = thread_key ev.pid ev.tid

abbrev pub syscall : Event → ℕ
syscall ev = ev.syscall_id

pub process_event-threads :
    (a : Aggregator) (ev : Event)
    → (process_event a ev).threads ≡ feed timed thread no_thread change_thread a.threads ev
unfolding process_event update_process update_thread update_syscall update_stack add_stack
process_event-threads a ev = ground arith

pub process_event-syscalls :
    (a : Aggregator) (ev : Event)
    → (process_event a ev).syscalls ≡ feed blocking syscall no_syscall change_syscall a.syscalls ev
unfolding process_event update_process update_thread update_syscall update_stack add_stack
process_event-syscalls a ev = ground arith

pub fold-threads :
    (evs : List Event) (a : Aggregator)
    → (fold process_event a evs).threads
      ≡ fold (feed timed thread no_thread change_thread) a.threads evs
fold-threads [] a = refl
fold-threads (ev ∷ evs) a =
    rw (← process_event-threads a ev) (fold-threads evs (process_event a ev))

pub fold-syscalls :
    (evs : List Event) (a : Aggregator)
    → (fold process_event a evs).syscalls
      ≡ fold (feed blocking syscall no_syscall change_syscall) a.syscalls evs
fold-syscalls [] a = refl
fold-syscalls (ev ∷ evs) a =
    rw (← process_event-syscalls a ev) (fold-syscalls evs (process_event a ev))

abbrev pub timed_events : List Event → List Event
timed_events evs = keep timed evs

abbrev pub blocking_events : List Event → List Event
blocking_events evs = keep blocking evs

abbrev pub time : List Event → ℕ
time evs = sum (map (λ ev. ev.duration_ns) evs)

abbrev pub process_time : ProcessStats → ℕ
process_time p = p.total_offcpu_ns + p.total_syscall_ns

abbrev pub thread_time : ThreadStats → ℕ
thread_time t = t.total_offcpu_ns + t.total_syscall_ns

process_adds :
    (ev : Event) (p : ProcessStats)
    → timed ev ≡ true
    → process_time p + ev.duration_ns < u64_mod
    → process_time (change_process ev p) ≡ process_time p + ev.duration_ns
unfolding change_process
process_adds ev p r room = ground arith

thread_adds :
    (ev : Event) (t : ThreadStats)
    → timed ev ≡ true
    → thread_time t + ev.duration_ns < u64_mod
    → thread_time (change_thread ev t) ≡ thread_time t + ev.duration_ns
unfolding change_thread
thread_adds ev t r room = ground arith

syscall_adds :
    (ev : Event) (s : SyscallStats)
    → blocking ev ≡ true
    → s.total_ns + ev.duration_ns < u64_mod
    → (change_syscall ev s).total_ns ≡ s.total_ns + ev.duration_ns
unfolding change_syscall
syscall_adds ev s r room = omega arith

blocking-le-timed : (evs : List Event) → time (blocking_events evs) ≤ time (timed_events evs)
blocking-le-timed [] = omega arith
blocking-le-timed (ev ∷ evs) = one ev (blocking-le-timed evs)
  where
    one :
        (ev : Event)
        → time (blocking_events evs) ≤ time (timed_events evs)
        → time (blocking_events (ev ∷ evs)) ≤ time (timed_events (ev ∷ evs))
    one ev h = ground arith

-- While the counted time is below 2 ^ 64 ns, the off-CPU and system-call times of all processes add up
-- to the durations of the counted events, and so do those of all threads; the times of all system calls
-- add up to the durations of the counted events other than off-CPU slices.
pub after-time :
    (evs : List Event)
    → time (timed_events evs) < u64_mod
    → (sum (map process_time (values (after evs).procs)) ≡ time (timed_events evs))
      × (sum (map thread_time (values (after evs).threads)) ≡ time (timed_events evs))
      × (sum (map (λ s. s.total_ns) (values (after evs).syscalls)) ≡ time (blocking_events evs))
unfolding empty no_process no_thread no_syscall
after-time evs room = (
  rw (fold-procs evs empty) (
      sum-fold-empty timed key no_process change_process process_time (λ ev. ev.duration_ns) u64_mod
        refl process_adds evs room),
  rw (fold-threads evs empty) (
      sum-fold-empty timed thread no_thread change_thread thread_time (λ ev. ev.duration_ns) u64_mod
        refl thread_adds evs room),
  rw (fold-syscalls evs empty) (
      sum-fold-empty blocking syscall no_syscall change_syscall (λ s. s.total_ns)
        (λ ev. ev.duration_ns) u64_mod refl syscall_adds evs
        (omega (arith, blocking-le-timed evs, room))),
)

process_counts :
    (ev : Event) (p : ProcessStats)
    → timed ev ≡ true
    → p.slow_event_count + 1 < u32_mod
    → (change_process ev p).slow_event_count ≡ p.slow_event_count + 1
unfolding change_process
process_counts ev p r room = omega arith

thread_counts :
    (ev : Event) (t : ThreadStats)
    → timed ev ≡ true
    → t.slow_event_count + 1 < u32_mod
    → (change_thread ev t).slow_event_count ≡ t.slow_event_count + 1
unfolding change_thread
thread_counts ev t r room = omega arith

syscall_counts :
    (ev : Event) (s : SyscallStats)
    → blocking ev ≡ true
    → s.count + 1 < u64_mod
    → (change_syscall ev s).count ≡ s.count + 1
unfolding change_syscall
syscall_counts ev s r room = omega arith

fewer_blocking : (evs : List Event) → length (blocking_events evs) ≤ length (timed_events evs)
fewer_blocking [] = omega arith
fewer_blocking (ev ∷ evs) = one ev (fewer_blocking evs)
  where
    one :
        (ev : Event)
        → length (blocking_events evs) ≤ length (timed_events evs)
        → length (blocking_events (ev ∷ evs)) ≤ length (timed_events (ev ∷ evs))
    one ev h = ground arith

abbrev count : List Event → ℕ
count evs = sum (map (λ _. 1) evs)

count-length : (evs : List Event) → count evs ≡ length evs
count-length [] = refl
count-length (ev ∷ evs) = omega (arith, count-length evs)

-- While fewer than 2 ^ 32 events are counted, each of them is counted once in the table of processes and
-- once in the table of threads, and each other than an off-CPU slice once in the table of system calls.
pub after-count :
    (evs : List Event)
    → length (timed_events evs) < u32_mod
    → (sum (map (λ p. p.slow_event_count) (values (after evs).procs)) ≡ length (timed_events evs))
      × (sum (map (λ t. t.slow_event_count) (values (after evs).threads))
          ≡ length (timed_events evs))
      × (sum (map (λ s. s.count) (values (after evs).syscalls)) ≡ length (blocking_events evs))
unfolding empty no_process no_thread no_syscall
after-count evs few =
    let timed_count = count-length (timed_events evs) in
    let blocking_count = count-length (blocking_events evs) in
    (
      rw (← timed_count, fold-procs evs empty)
          (sum-fold-empty timed key no_process change_process (λ p. p.slow_event_count) (λ _. 1)
            u32_mod refl process_counts evs (omega (arith, timed_count, few))),
      rw (← timed_count, fold-threads evs empty)
          (sum-fold-empty timed thread no_thread change_thread (λ t. t.slow_event_count) (λ _. 1)
            u32_mod refl thread_counts evs (omega (arith, timed_count, few))),
      rw (← blocking_count, fold-syscalls evs empty)
          (sum-fold-empty blocking syscall no_syscall change_syscall (λ s. s.count) (λ _. 1) u64_mod
            refl syscall_counts evs (omega (arith, blocking_count, fewer_blocking evs, few))),
    )
