-- ===== src/Pipeline/Times.antt =====
-- The time of a thread's calls, from the tracepoints to the table of threads.
use kernel_scope.Prelude.{
  ℕ, ◌+◌, ◌<◌, ◌≤◌, ◌≡◌, refl, arith, ◌&&◌, ◌==◌, Bool-cases, true, false, List, [], ◌∷◌, All, map,
  keep, sum, length, Option, none, some, inl, inr, ◌∙◌, ap, nat_eq, if◌then◌else◌, String, u64,
  u64_mod, u32_mod,
}
use kernel_scope.Prelude.Int.{ℤ}
use kernel_scope.Prelude.Assoc.{lookup, or_default}
use kernel_scope.Prelude.Keyed.{group, entry, lookup-fold-feed}
use kernel_scope.Event.{Event, event_type}
use kernel_scope.Decoder.{RawEvent, copy_fields}
use kernel_scope.Aggregator
use kernel_scope.Aggregator.{Aggregator, after, thread_key, is_timed}
use kernel_scope.Aggregator.Stats.{ThreadStats, no_thread, change_thread, is_offcpu}
use kernel_scope.Aggregator.Processes.{timed, durations, on_syscall}
use kernel_scope.Aggregator.Threads.{thread_key-injective}
use kernel_scope.Aggregator.Totals.{thread, fold-threads}
use kernel_scope.Bpf.Loader.{Rodata}
use kernel_scope.Bpf.Bridge.{TaskKey}
use kernel_scope.Bpf.Collector.{Collector}
use kernel_scope.Tracer.{empty, max_active_syscalls}
use kernel_scope.Tracer.Handlers.{Hit, run}
use kernel_scope.Tracer.Runs.{of_task, calls}
use kernel_scope.Tracer.Runs.Calls.{run-calls}
use kernel_scope.Tracer.Traced.{IsTraced, slow_call, slice, process, run-IsTraced}
use kernel_scope.Pipeline.{IsMemory, IsStarted, copied, polled, polled-after}

-- The time in system calls that a table entry has.
abbrev pub syscall_ns : Option ThreadStats → ℕ
syscall_ns none = 0
syscall_ns (some t) = t.total_syscall_ns

abbrev pub raw_time : List RawEvent → ℕ
raw_time es = sum (map (λ e. e.duration_ns) es)

-- The events of a list that change the entry of a thread.
abbrev of_thread : ℕ → List Event → List Event
of_thread k evs = group timed thread no_thread change_thread k evs

changed-syscall_ns :
    (ev : Event) (o : Option ThreadStats)
    → syscall_ns (some (change_thread ev (or_default o no_thread)))
      ≡ (if is_offcpu ev.type then syscall_ns o else u64 (syscall_ns o + ev.duration_ns))
unfolding change_thread no_thread
changed-syscall_ns ev none = refl
changed-syscall_ns ev (some t) = refl

entry-syscall_ns :
    (evs : List Event) (o : Option ThreadStats)
    → syscall_ns o < u64_mod
    → syscall_ns (entry timed thread no_thread change_thread o evs)
      ≡ u64 (syscall_ns o + sum (durations (on_syscall evs)))
entry-syscall_ns [] o small = omega arith
entry-syscall_ns (ev ∷ evs) o small =
    let o' : Option ThreadStats = some (change_thread ev (or_default o no_thread)) in
    let changed = changed-syscall_ns ev o in
    elim (Bool-cases (is_offcpu ev.type)) [
      | inl off ↦
          let same = rw off at changed in
          simp off (omega (arith, same, entry-syscall_ns evs o' (omega (arith, same, small))))
      | inr on ↦
          let added = rw on at changed in
          simp on (omega (arith, added, entry-syscall_ns evs o' (omega (arith, added))))
    ]

after-syscall_ns :
    (evs : List Event) (k : ℕ)
    → syscall_ns (lookup k (after evs).threads)
      ≡ u64 (sum (durations (on_syscall (of_thread k evs))))
unfolding Aggregator.empty lookup
after-syscall_ns evs k =
    let found = lookup-fold-feed timed thread no_thread change_thread evs [] k in
    let total = entry-syscall_ns (of_thread k evs) none (omega arith) in
    rw (fold-threads evs Aggregator.empty, found) (omega (arith, total))

abbrev pub IsThread : RawEvent → Type 0
IsThread e = (e.pid < u32_mod) × (e.tid < u32_mod)

named : (n : ℕ) (e : RawEvent) → e.type ≡ n → event_type e.type ≡ event_type n
named n e h = ap event_type h

module _ (r : Rodata) (κ : TaskKey) (p : κ.pid < u32_mod) (t : κ.tid < u32_mod) where
  same_thread :
      (e : RawEvent)
      → IsThread e
      → (thread_key e.pid e.tid == thread_key κ.pid κ.tid) ≡ (e.pid == κ.pid && e.tid == κ.tid)
  same_thread e (ep, et) = elim (Bool-cases (e.pid == κ.pid && e.tid == κ.tid)) [
    | inl own ↦
        let pids : e.pid ≡ κ.pid = ground arith in
        let tids : e.tid ≡ κ.tid = ground arith in rw (own, pids, tids) (ground arith)
    | inr other ↦ rw other (elim (Bool-cases (thread_key e.pid e.tid == thread_key κ.pid κ.tid)) [
      | inr different ↦ different
      | inl same ↦
          let both =
            thread_key-injective e.pid e.tid κ.pid κ.tid ep et p t (ground (arith, same)) in
          absurd (ground (arith, other, both))
    ])
  ]

  abbrev time_of : List RawEvent → ℕ
  time_of es = sum (durations (on_syscall (of_thread (thread_key κ.pid κ.tid) (copied es))))

  -- A call, a slice, and an event that the tables pass over.
  call-time :
      (e : RawEvent) (es : List RawEvent)
      → IsThread e
      → e.type ≡ 1
      → time_of es ≡ raw_time (keep (of_task r κ) es)
      → time_of (e ∷ es) ≡ raw_time (keep (of_task r κ) (e ∷ es))
  unfolding copy_fields
  call-time e es small type rest =
      let counted : timed (copy_fields e) ≡ true =
        ap is_timed (named 1 e type) ∙ (unfold event_type in refl) in
      let on : is_offcpu (event_type e.type) ≡ false =
        ap is_offcpu (named 1 e type) ∙ (unfold event_type in refl) in
      let one : (e.type == 1) ≡ true = ground arith in
      elim (Bool-cases (e.pid == κ.pid && e.tid == κ.tid)) [
        | inl own ↦
            rw (counted, same_thread e small, own, one, on) (ap (λ n. e.duration_ns + n) rest)
        | inr other ↦ rw (counted, same_thread e small, other, one) rest
      ]

  slice-time :
      (e : RawEvent) (es : List RawEvent)
      → e.type ≡ 2
      → time_of es ≡ raw_time (keep (of_task r κ) es)
      → time_of (e ∷ es) ≡ raw_time (keep (of_task r κ) (e ∷ es))
  unfolding copy_fields
  slice-time e es type rest =
      let off : is_offcpu (event_type e.type) ≡ true =
        ap is_offcpu (named 2 e type) ∙ (unfold event_type in refl) in
      let no_call : (e.type == 1) ≡ false = ground arith in
      elim (Bool-cases
        (timed (copy_fields e) && thread_key e.pid e.tid == thread_key κ.pid κ.tid)) [
          | inl counted ↦ rw (counted, off, no_call) rest
          | inr uncounted ↦ rw (uncounted, no_call) rest
        ]

  other-time :
      (n : ℕ) (e : RawEvent) (es : List RawEvent)
      → e.type ≡ n
      → is_timed (event_type n) ≡ false
      → (n == 1) ≡ false
      → time_of es ≡ raw_time (keep (of_task r κ) es)
      → time_of (e ∷ es) ≡ raw_time (keep (of_task r κ) (e ∷ es))
  unfolding copy_fields
  other-time n e es type untimed no_call rest =
      let uncounted : timed (copy_fields e) ≡ false = ap is_timed (named n e type) ∙ untimed in
      let not_call : (e.type == 1) ≡ false = ap (λ m. m == 1) type ∙ no_call in
      rw (uncounted, not_call) rest

  ring-time :
      (es : List RawEvent)
      → All IsThread es
      → All (IsTraced r) es
      → time_of es ≡ raw_time (keep (of_task r κ) es)
  ring-time [] small h = refl
  ring-time (e ∷ es) small h = one h.0 (ring-time es small.1 h.1)
    where
      one :
          IsTraced r e
          → time_of es ≡ raw_time (keep (of_task r κ) es)
          → time_of (e ∷ es) ≡ raw_time (keep (of_task r κ) (e ∷ es))
      one (slow_call type inside long) rest = call-time e es small.0 type rest
      one (slice type inside long same) rest = slice-time e es type rest
      one (process (inl type) inside nothing) rest =
          other-time 5 e es type (unfold event_type in refl) refl rest
      one (process (inr type) inside nothing) rest =
          other-time 6 e es type (unfold event_type in refl) refl rest

  -- Whatever the handlers do from the start, in any interleaving of tasks, the time in system calls that
  -- the table of threads has for a thread, after a poll of the events, is the sum of the durations of the
  -- calls that the thread itself entered and left, of those that are long enough and found memory (modulo
  -- 2^64). The run has no more hits than the map of calls has room for, and all ids have 32 bits.
  pub polled-syscall_ns :
      (hits : List Hit) (raws : List (List ℕ)) (answer : ℤ) (message : String)
      (c : Collector Aggregator)
      → length hits ≤ max_active_syscalls
      → IsStarted c
      → IsMemory raws (run r empty hits).ring
      → All IsThread (run r empty hits).ring
      → syscall_ns (lookup (thread_key κ.pid κ.tid) (polled raws answer message c).threads)
        ≡ u64 (raw_time (calls r κ none hits))
  unfolding empty lookup
  polled-syscall_ns hits raws answer message c room started memory small =
      let ring = (run r empty hits).ring in
      let (call, events) = run-calls r κ hits empty (omega (arith, room)) in
      rw
        (
          polled-after raws ring answer message c started memory,
          after-syscall_ns (copied ring) (thread_key κ.pid κ.tid),
          ring-time ring small (run-IsTraced r hits),
          events,
        )
        refl
