-- ===== src/Tracer/Slices/Whole.antt =====
-- A whole run, as one thread sees it.
use kernel_scope.Prelude.{
  ◌+◌, ◌*◌, ◌≤◌, ◌<◌, ◌≡◌, refl, arith, if◌then◌else◌, Bool, Bool-cases, true, false, List, [], ◌∷◌,
  ◌++◌, Option, none, inl, inr, keep, length, append-nil, sym, ◌∙◌, ap,
}
use kernel_scope.Prelude.Assoc.{lookup}
use kernel_scope.Prelude.Bounded.{remove, lookup-remove, length-remove}
use kernel_scope.Decoder.{RawEvent}
use kernel_scope.Bpf.Loader.{Rodata}
use kernel_scope.Bpf.Bridge.{TaskKey}
use kernel_scope.Tracer.{Tracer, SchedState, task_key_eq, max_sched_entries}
use kernel_scope.Tracer.Filters.{Task, filter_pid, fill_task_key}
use kernel_scope.Tracer.Handlers.{
  Hit, enter, exit, switch, exec, quit, Switch, tid_key, submit, lifetime_event, sys_exit,
  sched_switch, switch_in, switch_out, process_exit,
}
use kernel_scope.Tracer.Runs.{mine}
use kernel_scope.Tracer.Slices.{admits, switched_in, thread_step, sliced, thread_events, of_thread}
use kernel_scope.Tracer.Handlers.{handle, run}
use kernel_scope.Tracer.Slices.{state_after, slices}
use kernel_scope.Tracer.Slices.Steps.{
  Same, Step, at, seen, submit-Same, sys_enter-Same, finish_syscall-Same, process_exec-Same,
  switch_out-Step,
}
use kernel_scope.Prelude.{append_assoc}
use kernel_scope.Tracer.Slices.Resume.{resume-Step}

module _ (r : Rodata) (κ : TaskKey) where
  record StepOf (s s' : Tracer) (h : Hit) : Type 0 where
    state : at r κ s' ≡ thread_step r κ (at r κ s) h
    events : seen r κ s' ≡ seen r κ s ++ thread_events r κ (at r κ s) h
    grows : length s'.sched_states ≤ length s.sched_states + 2

  switch_in-Step :
      (w : Switch) (s : Tracer)
      → length s.sched_states < max_sched_entries
      → Step r κ s
          (switch_in r w s)
          (switched_in r κ (at r κ s) w)
          (if admits r κ w.next_pid then sliced r κ w (at r κ s) else [])
  unfolding switch_in
  switch_in-Step w s room = elim (Bool-cases (filter_pid r w.next_pid)) [
    | inl inside ↦
        simp inside (resume-Step r κ w (lookup (tid_key w.next_pid) s.sched_states) s refl room)
    | inr out ↦ simp out (record { state = refl; events = sym (append-nil _); grows = omega arith })
  ]

  switch-StepOf :
      (w : Switch) (s : Tracer)
      → length s.sched_states + 1 < max_sched_entries
      → StepOf s (sched_switch r w s) (switch w)
  unfolding sched_switch
  switch-StepOf w s room =
      let out = switch_out-Step r κ w s (omega (arith, room)) in
      let in_ = switch_in-Step w (switch_out r w s) (omega (arith, room, out.grows)) in
      record {
        state = in_.state ∙ ap (λ o. switched_in r κ o w) out.state;
        events = in_.events ∙ rw (out.state, out.events ∙ append-nil _) refl;
        grows = omega (arith, in_.grows, out.grows);
      }

  Same-StepOf :
      (s s' : Tracer) (h : Hit)
      → Same r κ s s'
      → thread_step r κ (at r κ s) h ≡ at r κ s
      → thread_events r κ (at r κ s) h ≡ []
      → StepOf s s' h
  Same-StepOf s s' h same stays silent = record {
    state = ap (λ m. lookup κ m) same.states ∙ sym stays;
    events = rw silent (same.events ∙ sym (append-nil _));
    grows = omega (arith, ap length same.states);
  }

  quit-StepOf :
      (t : Task) (memory : Option RawEvent) (s : Tracer)
      → StepOf s (process_exit r t memory s) (quit t memory)
  unfolding process_exit
  quit-StepOf t memory s = tested (filter_pid r key.pid)
    where
      key : TaskKey
      key = fill_task_key r t

      cleaned : Tracer
      cleaned = record s {
        active_syscalls = remove key s.active_syscalls;
        sched_states = remove key s.sched_states;
      }

      removed :
          lookup κ (remove key s.sched_states)
          ≡ (if mine r κ t then none else lookup κ s.sched_states)
      removed = lookup-remove key κ s.sched_states

      tested :
          (b : Bool)
          → StepOf s
              (if b then submit memory (lifetime_event r t 6) cleaned else cleaned)
              (quit t memory)
      tested false = record {
        state = removed;
        events = sym (append-nil _);
        grows = omega (arith, length-remove key s.sched_states);
      }
      tested true =
          let same =
            submit-Same r κ memory (lifetime_event r t 6) cleaned
              (λ e. unfold lifetime_event in refl) in
          record {
            state = ap (λ m. lookup κ m) same.states ∙ removed;
            events = same.events ∙ sym (append-nil _);
            grows = omega (arith, ap length same.states, length-remove key s.sched_states);
          }

  handle-StepOf :
      (s : Tracer) (h : Hit)
      → length s.sched_states + 1 < max_sched_entries
      → StepOf s (handle r s h) h
  unfolding handle sys_exit
  handle-StepOf s (enter t id) room =
      Same-StepOf s _ (enter t id) (sys_enter-Same r κ t id s) refl refl
  handle-StepOf s (exit t memory) room =
      Same-StepOf s _ (exit t memory)
        (finish_syscall-Same r κ t memory (lookup (fill_task_key r t) s.active_syscalls) s) refl
        refl
  handle-StepOf s (switch w) room = switch-StepOf w s room
  handle-StepOf s (exec t memory) room =
      Same-StepOf s _ (exec t memory) (process_exec-Same r κ t memory s) refl refl
  handle-StepOf s (quit t memory) room = quit-StepOf t memory s

-- As long as the map of threads has room for two entries for each hit of the run, what one thread has in
-- the map and in the ring is what the switches from it and to it, and the ends of tasks with its key,
-- make of it, whichever hits of other threads stand between them: its state, and one event for each
-- slice that is long enough and finds memory, in order.
pub run-slices :
    (r : Rodata) (κ : TaskKey) (hits : List Hit) (s : Tracer)
    → length s.sched_states + 2 * length hits ≤ max_sched_entries
    → (lookup κ (run r s hits).sched_states ≡ state_after r κ (lookup κ s.sched_states) hits)
      × (keep (of_thread r κ) (run r s hits).ring
          ≡ keep (of_thread r κ) s.ring ++ slices r κ (lookup κ s.sched_states) hits)
run-slices r κ [] s room = (refl, sym (append-nil _))
run-slices r κ (h ∷ hs) s room =
    let o : Option SchedState = lookup κ s.sched_states in
    let step : StepOf r κ s (handle r s h) h = handle-StepOf r κ s h (omega arith) in
    let (state, events) = run-slices r κ hs (handle r s h) (omega (arith, step.grows)) in
    (
      rw step.state at state,
      rw (rw step.state at events, step.events)
          (append_assoc (keep (of_thread r κ) s.ring) (thread_events r κ o h)
            (slices r κ (thread_step r κ o h) hs)),
    )
