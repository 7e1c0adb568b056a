-- ===== src/Tracer/Slices/Steps.antt =====
-- Each handler, as one thread sees it.
use kernel_scope.Prelude.{
  ℕ, ◌+◌, ◌≤◌, ◌<◌, ◌≡◌, refl, arith, leb, if◌then◌else◌, Bool, Bool-cases, true, false, List, [],
  ◌∷◌, ◌++◌, Option, some, none, inl, inr, keep, keep-append, length, sub64, append-nil, sym,
}
use kernel_scope.Prelude.Assoc.{lookup}
use kernel_scope.Prelude.Bounded.{put, lookup-put, length-put}
use kernel_scope.Decoder.{RawEvent}
use kernel_scope.Bpf.Loader.{Rodata}
use kernel_scope.Bpf.Bridge.{TaskKey}
use kernel_scope.Tracer.{Tracer, ActiveSyscall, SchedState, task_key_eq, max_sched_entries}
use kernel_scope.Tracer.Filters.{Task, filter_pid, fill_task_key}
use kernel_scope.Tracer.Handlers.{
  Switch, tid_key, submit, syscall_event, lifetime_event, finish_syscall, sys_enter, switch_out,
  process_exec, accepts,
}
use kernel_scope.Tracer.Slices.{left, switched_out, of_thread}

module _ (r : Rodata) (κ : TaskKey) where
  -- A state, as the thread sees it.
  abbrev pub at : Tracer → Option SchedState
  at s = lookup κ s.sched_states

  abbrev pub seen : Tracer → List RawEvent
  seen s = keep (of_thread r κ) s.ring

  -- A handler that the thread takes no notice of.
  pub record Same (s s' : Tracer) : Type 0 where
    pub states : s'.sched_states ≡ s.sched_states
    pub events : seen s' ≡ seen s

  pub submit-Same :
      (memory : Option RawEvent) (fill : RawEvent → RawEvent) (s : Tracer)
      → ((e : RawEvent) → of_thread r κ (fill e) ≡ false)
      → Same s (submit memory fill s)
  unfolding submit
  submit-Same none fill s h = record { states = refl; events = refl }
  submit-Same (some e) fill s h = record {
    states = refl;
    events = rw (keep-append (of_thread r κ) s.ring (fill e ∷ []), h e) (append-nil _);
  }

  pub if-Same : (b : Bool) (s s' : Tracer) → Same s s' → Same s (if b then s' else s)
  if-Same true s s' same = same
  if-Same false s s' same = record { states = refl; events = refl }

  pub sys_enter-Same : (t : Task) (id : ℕ) (s : Tracer) → Same s (sys_enter r t id s)
  unfolding sys_enter
  sys_enter-Same t id s = if-Same (accepts r t) s _ (record { states = refl; events = refl })

  pub finish_syscall-Same :
      (t : Task) (memory : Option RawEvent) (o : Option ActiveSyscall) (s : Tracer)
      → Same s (finish_syscall r t memory o s)
  unfolding finish_syscall
  finish_syscall-Same t memory none s = record { states = refl; events = refl }
  finish_syscall-Same t memory (some entry) s =
      let emitted =
        if-Same (leb r.min_latency_ns (sub64 t.ktime_ns entry.start_ns)) s _
          (submit-Same memory (syscall_event r t entry) s (λ e. unfold syscall_event in refl)) in
      record { states = emitted.states; events = emitted.events }

  pub process_exec-Same :
      (t : Task) (memory : Option RawEvent) (s : Tracer) → Same s (process_exec r t memory s)
  unfolding process_exec
  process_exec-Same t memory s =
      if-Same (filter_pid r (fill_task_key r t).pid) s _
        (submit-Same memory (lifetime_event r t 5) s (λ e. unfold lifetime_event in refl))

  -- What a switch makes of the state, with the events that it adds.
  pub record Step (s s' : Tracer) (after : Option SchedState) (added : List RawEvent) : Type 0 where
    pub state : at s' ≡ after
    pub events : seen s' ≡ seen s ++ added
    pub grows : length s'.sched_states ≤ length s.sched_states + 1

  pub own_state :
      (key : TaskKey) (s : Tracer) {o : Option SchedState}
      → task_key_eq.beq key κ ≡ true
      → lookup key s.sched_states ≡ o
      → at s ≡ o
  own_state key s own found = rw ((task_key_eq.beq_iff key κ).0 own) at found

  pub switch_out-Step :
      (w : Switch) (s : Tracer)
      → length s.sched_states < max_sched_entries
      → Step s (switch_out r w s) (switched_out r κ (at s) w) []
  unfolding switch_out
  switch_out-Step w s room = tested (filter_pid r w.prev_pid) refl
    where
      key : TaskKey
      key = tid_key w.prev_pid

      new : SchedState
      new = left r κ w (lookup key s.sched_states)

      stored : Tracer
      stored = record s { sched_states = put max_sched_entries key new s.sched_states }

      tested :
          (b : Bool)
          → filter_pid r w.prev_pid ≡ b
          → Step s (if b then stored else s) (switched_out r κ (at s) w) []
      tested false out = record {
        state = rw out refl;
        events = sym (append-nil _);
        grows = omega arith;
      }
      tested true inside = record {
        state = elim (Bool-cases (task_key_eq.beq key κ)) [
          | inl own ↦
              rw (inside, own, own_state key s own refl)
                (rw own at (lookup-put max_sched_entries key κ new s.sched_states room))
          | inr other ↦
              rw (inside, other)
                (rw other at (lookup-put max_sched_entries key κ new s.sched_states room))
        ];
        events = sym (append-nil _);
        grows = (length-put max_sched_entries key new s.sched_states).0;
      }
