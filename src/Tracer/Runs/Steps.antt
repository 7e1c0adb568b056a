-- ===== src/Tracer/Runs/Steps.antt =====
-- Each handler, as one task sees it.
use kernel_scope.Prelude.{
  ℕ, ◌+◌, ◌≤◌, ◌<◌, ◌≡◌, refl, arith, leb, if◌then◌else◌, Bool, Bool-cases, true, false, List, [],
  ◌∷◌, ◌++◌, Option, some, none, inl, inr, keep, keep-append, length, sub64, append-nil, sym, ◌∙◌,
  ap,
}
use kernel_scope.Prelude.Assoc.{lookup}
use kernel_scope.Prelude.Bounded.{put, remove, lookup-put, lookup-remove, length-put, length-remove}
use kernel_scope.Decoder.{RawEvent}
use kernel_scope.Bpf.Loader.{Rodata}
use kernel_scope.Bpf.Bridge.{TaskKey}
use kernel_scope.Tracer.{Tracer, ActiveSyscall, task_key_eq, max_active_syscalls}
use kernel_scope.Tracer.Filters.{Task, filter_pid, fill_task_key, fill_event_common}
use kernel_scope.Tracer.Handlers.{
  Hit, enter, exit, switch, exec, quit, Switch, accepts, syscall_entry, syscall_event,
  lifetime_event, submit, finish_syscall, sys_enter, sys_exit, sched_switch, switch_out,
  process_exec, process_exit, handle,
}
use kernel_scope.Tracer.Runs.{
  mine, task_step, task_events, of_task, submitted, submit-other, submit-active, switch_out-same,
  switch_in-same,
}

module _ (r : Rodata) (κ : TaskKey) where
  -- One hit, as the task sees it.
  pub record StepOf (s s' : Tracer) (h : Hit) : Type 0 where
    pub call : lookup κ s'.active_syscalls ≡ task_step r κ (lookup κ s.active_syscalls) h
    pub events :
        keep (of_task r κ) s'.ring
        ≡ keep (of_task r κ) s.ring ++ task_events r κ (lookup κ s.active_syscalls) h
    pub grows : length s'.active_syscalls ≤ length s.active_syscalls + 1

  enter-StepOf :
      (s : Tracer) (t : Task) (id : ℕ)
      → length s.active_syscalls < max_active_syscalls
      → StepOf s (sys_enter r t id s) (enter t id)
  unfolding sys_enter
  enter-StepOf s t id room = tested (accepts r t) refl
    where
      key : TaskKey
      key = fill_task_key r t

      entered : List (TaskKey × ActiveSyscall)
      entered = put max_active_syscalls key (syscall_entry r t id) s.active_syscalls

      tested :
          (b : Bool)
          → accepts r t ≡ b
          → StepOf s (if b then record s { active_syscalls = entered } else s) (enter t id)
      tested false refused = record {
        call = elim (Bool-cases (mine r κ t)) [
          | inl own ↦ rw (own, refused)
          | inr other ↦ rw other
        ];
        events = sym (append-nil _);
        grows = omega arith;
      }
      tested true accepted = record {
        call = elim (Bool-cases (mine r κ t)) [
          | inl own ↦
              rw (own, accepted)
                (rw own at (
                  lookup-put max_active_syscalls key κ (syscall_entry r t id) s.active_syscalls
                    room))
          | inr other ↦ rw other (
              rw other at (
                lookup-put max_active_syscalls key κ (syscall_entry r t id) s.active_syscalls room))
        ];
        events = sym (append-nil _);
        grows = (length-put max_active_syscalls key (syscall_entry r t id) s.active_syscalls).0;
      }

  quit-StepOf :
      (s : Tracer) (t : Task) (memory : Option RawEvent)
      → StepOf s (process_exit r t memory s) (quit t memory)
  unfolding process_exit
  quit-StepOf s t memory = tested (filter_pid r key.pid)
    where
      key : TaskKey
      key = fill_task_key r t

      cleaned : Tracer
      cleaned = record s {
        active_syscalls = remove key s.active_syscalls;
        sched_states = remove key s.sched_states;
      }

      no_call : (e : RawEvent) → of_task r κ (lifetime_event r t 6 e) ≡ false
      no_call e = unfold lifetime_event in refl

      tested :
          (b : Bool)
          → StepOf s
              (if b then submit memory (lifetime_event r t 6) cleaned else cleaned)
              (quit t memory)
      tested false = record {
        call = lookup-remove key κ s.active_syscalls;
        events = sym (append-nil _);
        grows = omega (arith, length-remove key s.active_syscalls);
      }
      tested true =
          let same = submit-active r κ memory (lifetime_event r t 6) cleaned in
          record {
            call = rw same (lookup-remove key κ s.active_syscalls);
            events =
                submit-other r κ memory (lifetime_event r t 6) cleaned no_call ∙ sym (append-nil _);
            grows = rw same (omega (arith, length-remove key s.active_syscalls));
          }

  exec-StepOf :
      (s : Tracer) (t : Task) (memory : Option RawEvent)
      → StepOf s (process_exec r t memory s) (exec t memory)
  unfolding process_exec
  exec-StepOf s t memory = tested (filter_pid r (fill_task_key r t).pid)
    where
      no_call : (e : RawEvent) → of_task r κ (lifetime_event r t 5 e) ≡ false
      no_call e = unfold lifetime_event in refl

      tested :
          (b : Bool)
          → StepOf s (if b then submit memory (lifetime_event r t 5) s else s) (exec t memory)
      tested false = record { call = refl; events = sym (append-nil _); grows = omega arith }
      tested true =
          let same = submit-active r κ memory (lifetime_event r t 5) s in
          record {
            call = rw same refl;
            events = submit-other r κ memory (lifetime_event r t 5) s no_call ∙ sym (append-nil _);
            grows = rw same (omega arith);
          }

  switch-StepOf : (s : Tracer) (w : Switch) → StepOf s (sched_switch r w s) (switch w)
  unfolding sched_switch
  switch-StepOf s w =
      let (active, ring) = switch_out-same r κ w s in
      let (active', ring') = switch_in-same r κ w (switch_out r w s) in
      let same : (sched_switch r w s).active_syscalls ≡ s.active_syscalls = active' ∙ active in
      record {
        call = rw same refl;
        events = ring' ∙ (ap (keep (of_task r κ)) ring ∙ sym (append-nil _));
        grows = rw same (omega arith);
      }

  emitted_by-ring :
      (s : Tracer) (t : Task) (memory : Option RawEvent) (entry : ActiveSyscall)
      → keep (of_task r κ) (submit memory (syscall_event r t entry) s).ring
        ≡ keep (of_task r κ) s.ring
          ++ (if mine r κ t then submitted r κ memory (syscall_event r t entry) else [])
  unfolding submit
  emitted_by-ring s t none entry = elim (Bool-cases (mine r κ t)) [
    | inl own ↦ rw own (sym (append-nil _))
    | inr other ↦ rw other (sym (append-nil _))
  ]
  emitted_by-ring s t (some e) entry = elim (Bool-cases (mine r κ t)) [
    | inl own ↦
        rw (own, keep-append (of_task r κ) s.ring (syscall_event r t entry e ∷ []), belongs ∙ own)
          refl
    | inr other ↦
        rw
          (
            other,
            keep-append (of_task r κ) s.ring (syscall_event r t entry e ∷ []),
            belongs ∙ other,
          )
          refl
  ]
    where
      belongs : of_task r κ (syscall_event r t entry e) ≡ mine r κ t
      belongs = unfold syscall_event fill_event_common fill_task_key in refl

  own_call :
      (s : Tracer) (t : Task) {o : Option ActiveSyscall}
      → mine r κ t ≡ true
      → lookup (fill_task_key r t) s.active_syscalls ≡ o
      → lookup κ s.active_syscalls ≡ o
  own_call s t own found = rw ((task_key_eq.beq_iff (fill_task_key r t) κ).0 own) at found

  finish-StepOf :
      (s : Tracer) (t : Task) (memory : Option RawEvent) (o : Option ActiveSyscall)
      → lookup (fill_task_key r t) s.active_syscalls ≡ o
      → StepOf s (finish_syscall r t memory o s) (exit t memory)
  unfolding finish_syscall
  finish-StepOf s t memory none found = record {
    call = elim (Bool-cases (mine r κ t)) [
      | inl own ↦ rw own (own_call s t own found)
      | inr other ↦ rw other
    ];
    events = elim (Bool-cases (mine r κ t)) [
      | inl own ↦ rw (own, own_call s t own found) (sym (append-nil _))
      | inr other ↦ rw other (sym (append-nil _))
    ];
    grows = omega arith;
  }
  finish-StepOf s t memory (some entry) found = tested (leb r.min_latency_ns duration) refl
    where
      key : TaskKey
      key = fill_task_key r t

      duration : ℕ
      duration = sub64 t.ktime_ns entry.start_ns

      finish : Tracer → Tracer
      finish emitted = record emitted { active_syscalls = remove key emitted.active_syscalls }

      tested :
          (b : Bool)
          → leb r.min_latency_ns duration ≡ b
          → StepOf s
              (finish (if b then submit memory (syscall_event r t entry) s else s))
              (exit t memory)
      tested false short = record {
        call = lookup-remove key κ s.active_syscalls;
        events = elim (Bool-cases (mine r κ t)) [
          | inl own ↦ rw (own, own_call s t own found, short) (sym (append-nil _))
          | inr other ↦ rw other (sym (append-nil _))
        ];
        grows = omega (arith, length-remove key s.active_syscalls);
      }
      tested true long =
          let same = submit-active r κ memory (syscall_event r t entry) s in
          let ring = emitted_by-ring s t memory entry in
          record {
            call = rw same (lookup-remove key κ s.active_syscalls);
            events = elim (Bool-cases (mine r κ t)) [
              | inl own ↦ rw (own, own_call s t own found, long) (rw own at ring)
              | inr other ↦ rw other (rw other at ring)
            ];
            grows = rw same (omega (arith, length-remove key s.active_syscalls));
          }

  exit-StepOf :
      (s : Tracer) (t : Task) (memory : Option RawEvent)
      → StepOf s (sys_exit r t memory s) (exit t memory)
  unfolding sys_exit
  exit-StepOf s t memory =
      finish-StepOf s t memory (lookup (fill_task_key r t) s.active_syscalls) refl

  pub handle-StepOf :
      (s : Tracer) (h : Hit)
      → length s.active_syscalls < max_active_syscalls
      → StepOf s (handle r s h) h
  unfolding handle
  handle-StepOf s (enter t id) room = enter-StepOf s t id room
  handle-StepOf s (exit t memory) room = exit-StepOf s t memory
  handle-StepOf s (switch w) room = switch-StepOf s w
  handle-StepOf s (exec t memory) room = exec-StepOf s t memory
  handle-StepOf s (quit t memory) room = quit-StepOf s t memory
