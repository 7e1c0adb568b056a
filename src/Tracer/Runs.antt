-- ===== src/Tracer/Runs.antt =====
-- The calls of one task, in a run in which any other tasks take part.
pub mod Steps
pub mod Calls
use kernel_scope.Prelude.{
  ℕ, ◌+◌, ◌≤◌, ◌<◌, ◌≡◌, refl, arith, ltb, leb, ◌==◌, if◌then◌else◌, Bool, Bool-cases, true, false,
  not, ◌&&◌, List, [], ◌∷◌, ◌++◌, Option, some, none, inl, inr, keep, keep-append, length, sub64,
  suc, append-nil, append_assoc, sym, ◌∙◌, ap, Option-cases,
}
use kernel_scope.Prelude.Assoc.{lookup}
use kernel_scope.Prelude.Bounded.{
  put, remove, lookup-put_self, lookup-put_ne, lookup-remove_self, lookup-remove_ne, length-put,
  length-remove,
}
use kernel_scope.Decoder.{RawEvent}
use kernel_scope.Bpf.Loader.{Rodata}
use kernel_scope.Bpf.Bridge.{TaskKey}
use kernel_scope.Tracer.{Tracer, ActiveSyscall, SchedState, task_key_eq, max_active_syscalls}
use kernel_scope.Tracer.Filters.{
  Task, filter_pid, fill_task_key, fill_event_common, get_ns_pid_tgid,
}
use kernel_scope.Tracer.Handlers.{
  Hit, tid_key, enter, exit, switch, exec, quit, Switch, accepts, syscall_entry, syscall_event,
  slice_event, lifetime_event, submit, finish_syscall, sys_enter, sys_exit, sched_switch, switch_in,
  switch_out, resume, process_exec, process_exit, handle, run,
}

module _ (r : Rodata) (κ : TaskKey) where
  -- Whether a handler runs in the task.
  abbrev pub mine : Task → Bool
  mine t = task_key_eq.beq (fill_task_key r t) κ

  -- The call that the task is in, as it alone determines it.
  abbrev pub task_step : Option ActiveSyscall → Hit → Option ActiveSyscall
  task_step o (enter t id) = if mine t && accepts r t then some (syscall_entry r t id) else o
  task_step o (exit t memory) = if mine t then none else o
  task_step o (quit t memory) = if mine t then none else o
  task_step o _ = o

  abbrev pub submitted : Option RawEvent → (RawEvent → RawEvent) → List RawEvent
  submitted none fill = []
  submitted (some e) fill = fill e ∷ []

  abbrev pub finished : Task → Option RawEvent → Option ActiveSyscall → List RawEvent
  finished t memory none = []
  finished t memory (some entry) =
      if leb r.min_latency_ns (sub64 t.ktime_ns entry.start_ns)
      then submitted memory (syscall_event r t entry)
      else []

  -- The events of its calls.
  abbrev pub task_events : Option ActiveSyscall → Hit → List RawEvent
  task_events o (exit t memory) = if mine t then finished t memory o else []
  task_events o _ = []

  abbrev pub call_after : Option ActiveSyscall → List Hit → Option ActiveSyscall
  call_after o [] = o
  call_after o (h ∷ hs) = call_after (task_step o h) hs

  abbrev pub calls : Option ActiveSyscall → List Hit → List RawEvent
  calls o [] = []
  calls o (h ∷ hs) = task_events o h ++ calls (task_step o h) hs

  abbrev pub of_task : RawEvent → Bool
  of_task e = e.type == 1 && (e.pid == κ.pid && e.tid == κ.tid)

  pub submit-other :
      (memory : Option RawEvent) (fill : RawEvent → RawEvent) (s : Tracer)
      → ((e : RawEvent) → of_task (fill e) ≡ false)
      → keep of_task (submit memory fill s).ring ≡ keep of_task s.ring
  unfolding submit
  submit-other none fill s h = refl
  submit-other (some e) fill s h = rw (keep-append of_task s.ring (fill e ∷ []), h e) (append-nil _)

  pub submit-active :
      (memory : Option RawEvent) (fill : RawEvent → RawEvent) (s : Tracer)
      → (submit memory fill s).active_syscalls ≡ s.active_syscalls
  unfolding submit
  submit-active none fill s = refl
  submit-active (some e) fill s = refl

  pub switch_out-same :
      (w : Switch) (s : Tracer)
      → ((switch_out r w s).active_syscalls ≡ s.active_syscalls)
        × ((switch_out r w s).ring ≡ s.ring)
  unfolding switch_out
  switch_out-same w s = elim (Bool-cases (filter_pid r w.prev_pid)) [
    | inl h ↦ simp h (refl, refl)
    | inr h ↦ simp h (refl, refl)
  ]

  pub resume-same :
      (w : Switch) (o : Option SchedState) (s : Tracer)
      → ((resume r w o s).active_syscalls ≡ s.active_syscalls)
        × (keep of_task (resume r w o s).ring ≡ keep of_task s.ring)
  unfolding resume
  resume-same w none s = (refl, refl)
  resume-same w (some state) s =
      let offcpu_ns = sub64 w.in_ns state.switch_out_ns in
      let slice : (e : RawEvent) → of_task (slice_event w offcpu_ns e) ≡ false =
        slice-other offcpu_ns in
      elim (Bool-cases (ltb 0 state.switch_out_ns)) [
        | inr on ↦ simp on (refl, refl)
        | inl out ↦ elim (Bool-cases (leb r.min_offcpu_ns offcpu_ns)) [
          | inr short ↦ simp (out, short) (refl, refl)
          | inl long ↦
              simp (out, long)
                (
                  submit-active w.memory (slice_event w offcpu_ns) s,
                  submit-other w.memory (slice_event w offcpu_ns) s slice,
                )
        ]
      ]
    where
      slice-other : (n : ℕ) (e : RawEvent) → of_task (slice_event w n e) ≡ false
      slice-other n e = unfold slice_event in refl

  pub switch_in-same :
      (w : Switch) (s : Tracer)
      → ((switch_in r w s).active_syscalls ≡ s.active_syscalls)
        × (keep of_task (switch_in r w s).ring ≡ keep of_task s.ring)
  unfolding switch_in
  switch_in-same w s = elim (Bool-cases (filter_pid r w.next_pid)) [
    | inl h ↦ simp h (resume-same w (lookup (tid_key w.next_pid) s.sched_states) s)
    | inr h ↦ simp h (refl, refl)
  ]
