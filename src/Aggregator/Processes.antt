-- ===== src/Aggregator/Processes.antt =====
-- The table of processes after a list of events.
use kernel_scope.Prelude.{
  ℕ, ◌+◌, ◌<◌, ◌≡◌, refl, arith, Bool, not, List, [], ◌∷◌, map, fold, keep, length, sum, maximum,
  max, u32, u64, u32_mod, u64_mod, nat_eq, some, none, ◌⊎◌, inl, inr, ◌∙◌, ap, All,
}
use kernel_scope.Prelude.Assoc.{lookup}
use kernel_scope.Prelude.Keyed.{feed, group, entry, lookup-fold-feed, entry-none}
use kernel_scope.Event.{Event, comm_str}
use kernel_scope.Histogram
use kernel_scope.Histogram.{Histogram, record_value}
use kernel_scope.Aggregator.{Aggregator, process_event, empty, after, is_timed}
use kernel_scope.Aggregator.Stats.{ProcessStats, no_process, change_process, is_offcpu}

abbrev pub timed : Event → Bool
timed ev = is_timed ev.type

abbrev pub key : Event → ℕ
key ev = ev.pid

process_event-procs :
    (a : Aggregator) (ev : Event)
    → (process_event a ev).procs ≡ feed timed key no_process change_process a.procs ev
unfolding process_event
process_event-procs a ev = ground arith

pub fold-procs :
    (evs : List Event) (a : Aggregator)
    → (fold process_event a evs).procs ≡ fold (feed timed key no_process change_process) a.procs evs
fold-procs [] a = refl
fold-procs (ev ∷ evs) a = rw (← process_event-procs a ev) (fold-procs evs (process_event a ev))

-- The events that are counted for a process, in order.
abbrev pub events_of : ℕ → List Event → List Event
events_of pid evs = group timed key no_process change_process pid evs

abbrev pub durations : List Event → List ℕ
durations evs = map (λ ev. ev.duration_ns) evs

-- Off-CPU slices are accounted apart from all other events.
abbrev pub offcpu : List Event → List Event
offcpu evs = keep (λ ev. is_offcpu ev.type) evs

abbrev pub on_syscall : List Event → List Event
on_syscall evs = keep (λ ev. not (is_offcpu ev.type)) evs

abbrev pub last : Event → List Event → Event
last ev [] = ev
last ev (next ∷ evs) = last next evs

abbrev step : ProcessStats → Event → ProcessStats
step p ev = change_process ev p

-- The sums, the maximum, the count and the histogram that a list of events adds to an entry.
abbrev Adds : ProcessStats → List Event → ProcessStats → Type 0
Adds p evs q =
    (q.total_offcpu_ns ≡ u64 (p.total_offcpu_ns + sum (durations (offcpu evs))))
    × (q.total_syscall_ns ≡ u64 (p.total_syscall_ns + sum (durations (on_syscall evs))))
    × (q.max_latency_ns ≡ max p.max_latency_ns (maximum (durations evs)))
    × (q.slow_event_count ≡ u32 (p.slow_event_count + length evs))
    × (q.latency_hist ≡ fold record_value p.latency_hist (durations evs))

change_process-Adds :
    (p : ProcessStats) (ev : Event)
    → p.total_offcpu_ns < u64_mod
    → p.total_syscall_ns < u64_mod
    → Adds p (ev ∷ []) (change_process ev p)
unfolding change_process
change_process-Adds p ev a b = ground arith

change_process-hist :
    (p : ProcessStats) (ev : Event)
    → (change_process ev p).latency_hist ≡ record_value p.latency_hist ev.duration_ns
unfolding change_process
change_process-hist p ev = refl

offcpu-cons :
    (ev : Event) (evs : List Event)
    → sum (durations (offcpu (ev ∷ evs)))
      ≡ sum (durations (offcpu (ev ∷ []))) + sum (durations (offcpu evs))
offcpu-cons ev evs = ground arith

on_syscall-cons :
    (ev : Event) (evs : List Event)
    → sum (durations (on_syscall (ev ∷ evs)))
      ≡ sum (durations (on_syscall (ev ∷ []))) + sum (durations (on_syscall evs))
on_syscall-cons ev evs = ground arith

fold-Adds :
    (evs : List Event) (p : ProcessStats)
    → p.total_offcpu_ns < u64_mod
    → p.total_syscall_ns < u64_mod
    → p.slow_event_count < u32_mod
    → Adds p evs (fold step p evs)
fold-Adds [] p a b c = (omega arith, omega arith, omega arith, omega arith, refl)
fold-Adds (ev ∷ evs) p a b c =
    let one = change_process-Adds p ev a b in
    let more =
      fold-Adds evs (change_process ev p) (omega (arith, one)) (omega (arith, one))
        (omega (arith, one)) in
    (
      omega (arith, one, more, offcpu-cons ev evs),
      omega (arith, one, more, on_syscall-cons ev evs),
      omega (arith, one, more),
      omega (arith, one, more),
      more.4 ∙ ap (λ h. fold record_value h (durations evs)) (change_process-hist p ev),
    )

-- The name and the process of the last event stay.
fold-last :
    (evs : List Event) (ev : Event) (p : ProcessStats)
    → ((fold step p (ev ∷ evs)).pid ≡ (last ev evs).pid)
      × ((fold step p (ev ∷ evs)).comm ≡ comm_str (last ev evs))
unfolding change_process
fold-last [] ev p = (refl, refl)
fold-last (next ∷ evs) ev p = fold-last evs next (change_process ev p)

-- Every event of a group has the key of the group.
last-pid :
    (pid : ℕ) (evs : List Event) (ev : Event) (rest : List Event)
    → events_of pid evs ≡ ev ∷ rest
    → (last ev rest).pid ≡ pid
last-pid pid evs ev rest e = All-last ev rest (rw e at (All-group evs))
  where
    All-group : (evs : List Event) → All (λ x. x.pid ≡ pid) (events_of pid evs)
    All-group [] = tt
    All-group (x ∷ xs) = ground (arith, All-group xs)

    All-last :
        (ev : Event) (rest : List Event)
        → All (λ x. x.pid ≡ pid) (ev ∷ rest)
        → (last ev rest).pid ≡ pid
    All-last ev [] a = a.0
    All-last ev (next ∷ rest) a = All-last next rest a.1

-- An entry that accounts for exactly the events `ev ∷ rest`: the sums of durations and the count wrap
-- at the width of their types.
pub record ProcessSummary (pid : ℕ) (ev : Event) (rest : List Event) (p : ProcessStats)
    : Type 0 where
  pub pid_is : p.pid ≡ pid
  pub comm : p.comm ≡ comm_str (last ev rest)
  pub total_offcpu_ns : p.total_offcpu_ns ≡ u64 (sum (durations (offcpu (ev ∷ rest))))
  pub total_syscall_ns : p.total_syscall_ns ≡ u64 (sum (durations (on_syscall (ev ∷ rest))))
  pub max_latency_ns : p.max_latency_ns ≡ maximum (durations (ev ∷ rest))
  pub slow_event_count : p.slow_event_count ≡ u32 (length (ev ∷ rest))
  pub latency_hist : p.latency_hist ≡ Histogram.recorded (durations (ev ∷ rest))

from_nothing :
    (pid : ℕ) (ev : Event) (rest : List Event)
    → (last ev rest).pid ≡ pid
    → ProcessSummary pid ev rest (fold step no_process (ev ∷ rest))
unfolding no_process Histogram.recorded
from_nothing pid ev rest h =
    let sums = fold-Adds (ev ∷ rest) no_process (omega arith) (omega arith) (omega arith) in
    record {
      pid_is = (fold-last rest ev no_process).0 ∙ h;
      comm = (fold-last rest ev no_process).1;
      total_offcpu_ns = omega (arith, sums);
      total_syscall_ns = omega (arith, sums);
      max_latency_ns = omega (arith, sums);
      slow_event_count = omega (arith, sums);
      latency_hist = sums.4;
    }

-- After any list of events a process has an entry exactly if an event was counted for it, and the
-- entry is the summary of these events, and of no others: off-CPU and other time apart, the largest
-- duration, the number of events, the histogram of all durations, and the name of the last event.
pub process-summary :
    (pid : ℕ) (evs : List Event)
    → ((events_of pid evs ≡ []) × (lookup pid (after evs).procs ≡ none))
      ⊎ ((ev : Event) × (rest : List Event) × (p : ProcessStats) × (events_of pid evs ≡ ev ∷ rest)
          × (lookup pid (after evs).procs ≡ some p)
          × ProcessSummary pid ev rest p)
unfolding empty lookup
process-summary pid evs = split (events_of pid evs) refl
  where
    found :
        lookup pid (after evs).procs
        ≡ entry timed key no_process change_process none (events_of pid evs)
    found =
        rw (fold-procs evs empty) (lookup-fold-feed timed key no_process change_process evs [] pid)

    split :
        (g : List Event)
        → events_of pid evs ≡ g
        → ((events_of pid evs ≡ []) × (lookup pid (after evs).procs ≡ none))
          ⊎ ((ev : Event) × (rest : List Event) × (p : ProcessStats) × (events_of pid evs
                ≡ ev ∷ rest)
              × (lookup pid (after evs).procs ≡ some p)
              × ProcessSummary pid ev rest p)
    split [] e = inl (e, rw e at found)
    split (ev ∷ rest) e = inr (
      ev,
      rest,
      fold step no_process (ev ∷ rest),
      e,
      (rw e at found) ∙ entry-none timed key no_process change_process ev rest,
      from_nothing pid ev rest (last-pid pid evs ev rest e),
    )
