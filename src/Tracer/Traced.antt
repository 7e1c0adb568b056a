-- ===== src/Tracer/Traced.antt =====
-- What the ring holds.
use kernel_scope.Prelude.{
  ℕ, ◌≡◌, refl, arith, leb, ltb, if◌then◌else◌, Bool, Bool-cases, true, false, List, [], ◌∷◌,
  Option, none, some, inl, inr, ◌⊎◌, sub64, All, All-append, ap, sym, ◌∙◌,
}
use kernel_scope.Prelude.Assoc.{lookup}
use kernel_scope.Prelude.Bounded.{put, remove, lookup-remove_self, lookup-remove_ne, lookup-put_ne}
use kernel_scope.Decoder.{RawEvent}
use kernel_scope.Bpf.Loader.{Rodata}
use kernel_scope.Bpf.Bridge.{TaskKey}
use kernel_scope.Tracer.{
  Tracer, ActiveSyscall, SchedState, task_key_eq, empty, max_active_syscalls, max_sched_entries,
}
use kernel_scope.Tracer.Filters.{Task, filter_pid, fill_task_key, fill_event_common}
use kernel_scope.Tracer.Handlers.{
  Hit, tid_key, enter, exit, switch, exec, quit, Switch, accepts, syscall_entry, syscall_event,
  slice_event, lifetime_event, submit, finish_syscall, sys_enter, sys_exit, sched_switch, switch_in,
  switch_out, resume, resumed, process_exec, process_exit, handle, run,
}

-- What the filter of ids and the least durations leave: a call, a slice or a process.
pub data IsTraced (r : Rodata) (e : RawEvent) : Type 0 where
  slow_call :
      e.type ≡ 1
      → filter_pid r e.pid ≡ true
      → leb r.min_latency_ns e.duration_ns ≡ true
      → IsTraced r e
  slice :
      e.type ≡ 2
      → filter_pid r e.pid ≡ true
      → leb r.min_offcpu_ns e.duration_ns ≡ true
      → e.tid ≡ e.pid
      → IsTraced r e
  process :
      (e.type ≡ 5) ⊎ (e.type ≡ 6) → filter_pid r e.pid ≡ true → e.duration_ns ≡ 0 → IsTraced r e

-- The invariant of a run: the ring holds such events alone, and no task outside the filter is in a call.
record IsFiltered (r : Rodata) (s : Tracer) : Type 0 where
  asked_for : All (IsTraced r) s.ring
  outside : (k : TaskKey) → filter_pid r k.pid ≡ false → lookup k s.active_syscalls ≡ none

submit-IsFiltered :
    (r : Rodata) (memory : Option RawEvent) (fill : RawEvent → RawEvent) (s : Tracer)
    → ((e : RawEvent) → IsTraced r (fill e))
    → IsFiltered r s
    → IsFiltered r (submit memory fill s)
unfolding submit
submit-IsFiltered r none fill s asked_for filtered = filtered
submit-IsFiltered r (some e) fill s asked_for filtered = record {
  asked_for = All-append (IsTraced r) s.ring (fill e ∷ []) filtered.asked_for (asked_for e, tt);
  outside = filtered.outside;
}

distinct-key :
    (r : Rodata) (key k : TaskKey)
    → filter_pid r key.pid ≡ true
    → filter_pid r k.pid ≡ false
    → task_key_eq.beq key k ≡ false
distinct-key r key k inside out = elim (Bool-cases (task_key_eq.beq key k)) [
  | inl same ↦
      let moved : filter_pid r key.pid ≡ filter_pid r k.pid =
        ap (λ (x : TaskKey). filter_pid r x.pid) ((task_key_eq.beq_iff key k).0 same) in
      absurd (ground (arith, sym inside ∙ moved ∙ out))
  | inr other ↦ other
]

remove-outside :
    (r : Rodata) (key : TaskKey) (s : Tracer)
    → IsFiltered r s
    → (k : TaskKey) → filter_pid r k.pid ≡ false
    → lookup k (remove key s.active_syscalls) ≡ none
remove-outside r key s filtered k out = elim (Bool-cases (task_key_eq.beq key k)) [
  | inl same ↦ rw ((task_key_eq.beq_iff key k).0 same) (lookup-remove_self k s.active_syscalls)
  | inr other ↦ lookup-remove_ne key k s.active_syscalls other ∙ filtered.outside k out
]

sys_enter-IsFiltered :
    (r : Rodata) (t : Task) (id : ℕ) (s : Tracer)
    → IsFiltered r s
    → IsFiltered r (sys_enter r t id s)
unfolding sys_enter
sys_enter-IsFiltered r t id s filtered = tested (accepts r t) refl
  where
    key : TaskKey
    key = fill_task_key r t

    entered : Tracer
    entered = record s {
      active_syscalls = put max_active_syscalls key (syscall_entry r t id) s.active_syscalls;
    }

    tested : (b : Bool) → accepts r t ≡ b → IsFiltered r (if b then entered else s)
    tested false refused = filtered
    tested true accepted = record {
      asked_for = filtered.asked_for;
      outside = λ k out.
          lookup-put_ne max_active_syscalls key k (syscall_entry r t id) s.active_syscalls
            (distinct-key r key k (ground (arith, accepted)) out)
          ∙ filtered.outside k out;
    }

finish_syscall-IsFiltered :
    (r : Rodata) (t : Task) (memory : Option RawEvent) (s : Tracer) (o : Option ActiveSyscall)
    → lookup (fill_task_key r t) s.active_syscalls ≡ o
    → IsFiltered r s
    → IsFiltered r (finish_syscall r t memory o s)
unfolding finish_syscall
finish_syscall-IsFiltered r t memory s none found filtered = filtered
finish_syscall-IsFiltered r t memory s (some entry) found filtered =
    removed _ (emitted (leb r.min_latency_ns duration) refl)
  where
    key : TaskKey
    key = fill_task_key r t

    duration : ℕ
    duration = sub64 t.ktime_ns entry.start_ns

    inside : filter_pid r key.pid ≡ true
    inside = elim (Bool-cases (filter_pid r key.pid)) [
      | inl admitted ↦ admitted
      | inr out ↦ absurd (ground (arith, sym found ∙ filtered.outside key out))
    ]

    called :
        leb r.min_latency_ns duration ≡ true
        → (e : RawEvent) → IsTraced r (syscall_event r t entry e)
    called long e =
        unfold syscall_event fill_event_common fill_task_key in slow_call refl inside long

    emitted :
        (b : Bool)
        → leb r.min_latency_ns duration ≡ b
        → IsFiltered r (if b then submit memory (syscall_event r t entry) s else s)
    emitted false short = filtered
    emitted true long =
        submit-IsFiltered r memory (syscall_event r t entry) s (called long) filtered

    removed :
        (s' : Tracer)
        → IsFiltered r s'
        → IsFiltered r (record s' { active_syscalls = remove key s'.active_syscalls })
    removed s' kept = record { asked_for = kept.asked_for; outside = remove-outside r key s' kept }

switch_out-IsFiltered :
    (r : Rodata) (w : Switch) (s : Tracer) → IsFiltered r s → IsFiltered r (switch_out r w s)
unfolding switch_out
switch_out-IsFiltered r w s filtered = elim (Bool-cases (filter_pid r w.prev_pid)) [
  | inl h ↦ simp h (record { asked_for = filtered.asked_for; outside = filtered.outside })
  | inr h ↦ simp h filtered
]

resume-IsFiltered :
    (r : Rodata) (w : Switch) (o : Option SchedState) (s : Tracer)
    → filter_pid r w.next_pid ≡ true
    → IsFiltered r s
    → IsFiltered r (resume r w o s)
unfolding resume
resume-IsFiltered r w none s inside filtered = filtered
resume-IsFiltered r w (some state) s inside filtered =
    resumed_by (ltb 0 state.switch_out_ns) (emitted (leb r.min_offcpu_ns offcpu_ns) refl)
  where
    offcpu_ns : ℕ
    offcpu_ns = sub64 w.in_ns state.switch_out_ns

    sliced :
        leb r.min_offcpu_ns offcpu_ns ≡ true
        → (e : RawEvent) → IsTraced r (slice_event w offcpu_ns e)
    sliced long e = unfold slice_event in slice refl inside long refl

    emitted :
        (b : Bool)
        → leb r.min_offcpu_ns offcpu_ns ≡ b
        → IsFiltered r (if b then submit w.memory (slice_event w offcpu_ns) s else s)
    emitted false short = filtered
    emitted true long =
        submit-IsFiltered r w.memory (slice_event w offcpu_ns) s (sliced long) filtered

    resumed_by :
        (b : Bool) {s' : Tracer}
        → IsFiltered r s'
        → IsFiltered r (
            if b
            then record s' {
              sched_states =
                  put max_sched_entries (tid_key w.next_pid) (resumed w state) s'.sched_states;
            }
            else s)
    resumed_by true kept = record { asked_for = kept.asked_for; outside = kept.outside }
    resumed_by false kept = filtered

switch_in-IsFiltered :
    (r : Rodata) (w : Switch) (s : Tracer) → IsFiltered r s → IsFiltered r (switch_in r w s)
unfolding switch_in
switch_in-IsFiltered r w s filtered = elim (Bool-cases (filter_pid r w.next_pid)) [
  | inl h ↦ simp h (resume-IsFiltered r w (lookup (tid_key w.next_pid) s.sched_states) s h filtered)
  | inr h ↦ simp h filtered
]

process-IsFiltered :
    (r : Rodata) (t : Task) (type : ℕ) (memory : Option RawEvent) (s : Tracer)
    → (type ≡ 5) ⊎ (type ≡ 6)
    → IsFiltered r s
    → IsFiltered r (
        if filter_pid r (fill_task_key r t).pid
        then submit memory (lifetime_event r t type) s
        else s)
process-IsFiltered r t type memory s types filtered =
    tested (filter_pid r (fill_task_key r t).pid) refl
  where
    asked_for :
        filter_pid r (fill_task_key r t).pid ≡ true
        → (e : RawEvent) → IsTraced r (lifetime_event r t type e)
    asked_for inside e =
        unfold lifetime_event fill_event_common fill_task_key in process types inside refl

    tested :
        (b : Bool)
        → filter_pid r (fill_task_key r t).pid ≡ b
        → IsFiltered r (if b then submit memory (lifetime_event r t type) s else s)
    tested false out = filtered
    tested true inside =
        submit-IsFiltered r memory (lifetime_event r t type) s (asked_for inside) filtered

handle-IsFiltered :
    (r : Rodata) (s : Tracer) (h : Hit) → IsFiltered r s → IsFiltered r (handle r s h)
unfolding handle sys_exit sched_switch process_exec process_exit
handle-IsFiltered r s (enter t id) filtered = sys_enter-IsFiltered r t id s filtered
handle-IsFiltered r s (exit t memory) filtered =
    finish_syscall-IsFiltered r t memory s (lookup (fill_task_key r t) s.active_syscalls) refl
      filtered
handle-IsFiltered r s (switch w) filtered =
    switch_in-IsFiltered r w (switch_out r w s) (switch_out-IsFiltered r w s filtered)
handle-IsFiltered r s (exec t memory) filtered =
    process-IsFiltered r t 5 memory s (inl refl) filtered
handle-IsFiltered r s (quit t memory) filtered =
    process-IsFiltered r t 6 memory _ (inr refl) (record {
      asked_for = filtered.asked_for;
      outside = remove-outside r (fill_task_key r t) s filtered;
    })

run-IsFiltered :
    (r : Rodata) (hits : List Hit) (s : Tracer) → IsFiltered r s → IsFiltered r (run r s hits)
run-IsFiltered r [] s filtered = filtered
run-IsFiltered r (h ∷ hs) s filtered =
    run-IsFiltered r hs (handle r s h) (handle-IsFiltered r s h filtered)

-- Whatever the handlers do from the start, each event of the ring is a call, a slice or the start or end of
-- a process with an id that filter_pid admits.
pub run-IsTraced : (r : Rodata) (hits : List Hit) → All (IsTraced r) (run r empty hits).ring
run-IsTraced r hits =
    (run-IsFiltered r hits empty
      (unfold empty lookup in record { asked_for = tt; outside = λ k out. refl })).asked_for
