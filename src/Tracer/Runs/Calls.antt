-- ===== src/Tracer/Runs/Calls.antt =====
-- The whole of a run, as one task sees it.
use kernel_scope.Prelude.{
  ℕ, ◌+◌, ◌≤◌, ◌≡◌, refl, arith, leb, Bool, true, List, [], ◌∷◌, ◌++◌, Option, some, keep, All, not,
  if◌then◌else◌, sub64, length, length-append, append-nil, append_assoc, sym,
}
use kernel_scope.Prelude.Assoc.{lookup}
use kernel_scope.Decoder.{RawEvent}
use kernel_scope.Bpf.Loader.{Rodata}
use kernel_scope.Bpf.Bridge.{TaskKey}
use kernel_scope.Tracer.{Tracer, ActiveSyscall, task_key_eq, max_active_syscalls}
use kernel_scope.Tracer.Handlers.{
  Hit, enter, exit, switch, exec, quit, handle, run, accepts, syscall_entry, syscall_event,
}
use kernel_scope.Tracer.Filters.{Task, fill_task_key}
use kernel_scope.Tracer.Runs.{mine, finished, task_step, task_events, call_after, calls, of_task}
use kernel_scope.Tracer.Runs.Steps.{StepOf, handle-StepOf}

-- As long as the map of calls has room for every hit of the run, what one task has in the map and in
-- the ring is what its own hits make of it, whichever hits of other tasks stand between them: the call
-- it is in, and one event for each finished call that is long enough and finds memory, in order.
pub run-calls :
    (r : Rodata) (κ : TaskKey) (hits : List Hit) (s : Tracer)
    → length s.active_syscalls + length hits ≤ max_active_syscalls
    → (lookup κ (run r s hits).active_syscalls ≡ call_after r κ (lookup κ s.active_syscalls) hits)
      × (keep (of_task r κ) (run r s hits).ring
          ≡ keep (of_task r κ) s.ring ++ calls r κ (lookup κ s.active_syscalls) hits)
run-calls r κ [] s room = (refl, sym (append-nil _))
run-calls r κ (h ∷ hs) s room =
    let o : Option ActiveSyscall = lookup κ s.active_syscalls in
    let step : StepOf r κ s (handle r s h) h = handle-StepOf r κ s h (omega arith) in
    let (call, events) = run-calls r κ hs (handle r s h) (omega (arith, step.grows)) in
    (
      rw step.call at call,
      rw (rw step.call at events, step.events)
          (append_assoc (keep (of_task r κ) s.ring) (task_events r κ o h)
            (calls r κ (task_step r κ o h) hs)),
    )

module _ (r : Rodata) (κ : TaskKey) where
  -- A hit that neither begins nor ends a call of the task.
  abbrev pub is_aside : Hit → Bool
  is_aside (enter t id) = not (mine r κ t)
  is_aside (exit t memory) = not (mine r κ t)
  is_aside (quit t memory) = not (mine r κ t)
  is_aside _ = true

  abbrev pub IsAside : Hit → Type 0
  IsAside h = is_aside h ≡ true

  aside-step :
      (o : Option ActiveSyscall) (h : Hit)
      → is_aside h ≡ true
      → (task_step r κ o h ≡ o) × (task_events r κ o h ≡ [])
  aside-step o (enter t id) aside = ground (arith, aside)
  aside-step o (exit t memory) aside = ground (arith, aside)
  aside-step o (switch w) aside = (refl, refl)
  aside-step o (exec t memory) aside = (refl, refl)
  aside-step o (quit t memory) aside = ground (arith, aside)

  aside-calls :
      (o : Option ActiveSyscall) (mid rest : List Hit)
      → All IsAside mid
      → calls r κ o (mid ++ rest) ≡ calls r κ o rest
  aside-calls o [] rest aside = refl
  aside-calls o (h ∷ hs) rest aside =
      let (same, silent) = aside-step o h aside.0 in
      rw (same, silent) (aside-calls o hs rest aside.1)

  -- A call that the task enters and leaves, with any hits of other tasks in between, adds to its events
  -- just the one with the time between the two readings of the clock, where that is long enough and the
  -- ring has memory, provided the filters admit the task where it enters and the map has room.
  pub call-traced :
      (s : Tracer) (t t' : Task) (id : ℕ) (e : RawEvent) (mid : List Hit)
      → fill_task_key r t ≡ κ
      → fill_task_key r t' ≡ κ
      → accepts r t ≡ true
      → All IsAside mid
      → length s.active_syscalls + (length mid + 2) ≤ max_active_syscalls
      → keep (of_task r κ) (run r s (enter t id ∷ mid ++ exit t' (some e) ∷ [])).ring
        ≡ keep (of_task r κ) s.ring
          ++ (if leb r.min_latency_ns (sub64 t'.ktime_ns t.ktime_ns)
              then syscall_event r t' (syscall_entry r t id) e ∷ []
              else [])
  unfolding syscall_entry
  call-traced s t t' id e mid own own' accepted aside room =
      let leave : List Hit = exit t' (some e) ∷ [] in
      let entry : ActiveSyscall = syscall_entry r t id in
      let entered = (task_key_eq.beq_iff (fill_task_key r t) κ).1 own in
      let left = (task_key_eq.beq_iff (fill_task_key r t') κ).1 own' in
      let skipped = aside-calls (some entry) mid leave aside in
      let (call, events) =
        run-calls r κ (enter t id ∷ mid ++ leave) s
          (omega (arith, room, length-append mid leave)) in
      rw events (
        rw (entered, accepted, skipped, left, append-nil (finished r κ t' (some e) (some entry)))
          refl)
