-- ===== src/Tracer/Named.antt =====
-- Where the calls in the ring come from.
use kernel_scope.Prelude.{
  ℕ, ◌≡◌, refl, arith, leb, ltb, if◌then◌else◌, Bool, Bool-cases, true, false, List, [], ◌∷◌,
  Option, none, some, inl, inr, ◌⊎◌, sub64, All, All-append, sym, ◌∙◌, ap,
}
use kernel_scope.Prelude.Assoc.{or_default, lookup}
use kernel_scope.Prelude.Bounded.{
  put, remove, lookup-remove_self, lookup-remove_ne, lookup-put_ne, lookup-put_cases,
}
use kernel_scope.Decoder.{RawEvent}
use kernel_scope.Bpf.Loader.{Rodata}
use kernel_scope.Bpf.Bridge.{TaskKey}
use kernel_scope.Tracer.{
  Tracer, ActiveSyscall, SchedState, task_key_eq, empty, max_active_syscalls, max_sched_entries,
}
use kernel_scope.Tracer.Filters.{Task, filter_pid, filter_comm, fill_task_key, fill_event_common}
use kernel_scope.Tracer.Handlers.{
  Hit, tid_key, enter, exit, switch, exec, quit, Switch, accepts, syscall_entry, syscall_event,
  slice_event, lifetime_event, submit, finish_syscall, sys_enter, sys_exit, sched_switch, switch_in,
  switch_out, resume, resumed, process_exec, process_exit, handle, run,
}
use kernel_scope.Tracer.Traced.{IsTraced, run-IsTraced}

-- A task enters a system call in one of the hits.
abbrev pub Enters : List Hit → Task → ℕ → Type 0
Enters [] t id = ⊥
Enters (h ∷ hs) t id = (h ≡ enter t id) ⊎ Enters hs t id

module _ (r : Rodata) (hits : List Hit) where
  -- The event of a call that one of the hits entered, under a name and an id that the filters admit.
  pub record HasBegun (e : RawEvent) : Type 0 where
    pub task : Task
    pub id : ℕ
    pub enters : Enters hits task id
    pub named : filter_comm r task.comm ≡ true
    pub admitted : filter_pid r e.pid ≡ true
    pub key : fill_task_key r task ≡ record { pid = e.pid; tid = e.tid }
    pub syscall_id : e.syscall_id ≡ id
    pub duration_ns : e.duration_ns ≡ sub64 e.timestamp_ns task.ktime_ns
    pub long : leb r.min_latency_ns e.duration_ns ≡ true

  abbrev pub IsCall : RawEvent → Type 0
  IsCall e = e.type ≡ 1 → HasBegun e

  record IsEntered (k : TaskKey) (entry : ActiveSyscall) : Type 0 where
    task : Task
    id : ℕ
    enters : Enters hits task id
    accepted : accepts r task ≡ true
    key : fill_task_key r task ≡ k
    made : syscall_entry r task id ≡ entry

  abbrev AllEntered : List (TaskKey × ActiveSyscall) → Type 0
  AllEntered m = (k : TaskKey) (entry : ActiveSyscall) → lookup k m ≡ some entry → IsEntered k entry

  record IsNamed (s : Tracer) : Type 0 where
    calls : All IsCall s.ring
    active : AllEntered s.active_syscalls

  remove-AllEntered :
      (key : TaskKey) (m : List (TaskKey × ActiveSyscall))
      → AllEntered m
      → AllEntered (remove key m)
  remove-AllEntered key m all k entry found = elim (Bool-cases (task_key_eq.beq key k)) [
    | inl same ↦
        let gone : lookup k (remove key m) ≡ none =
          rw ((task_key_eq.beq_iff key k).0 same) (lookup-remove_self k m) in
        absurd (ground (arith, sym found ∙ gone))
    | inr other ↦ all k entry (sym (lookup-remove_ne key k m other) ∙ found)
  ]

  put-AllEntered :
      (max : ℕ) (key : TaskKey) (v : ActiveSyscall) (m : List (TaskKey × ActiveSyscall))
      → IsEntered key v
      → AllEntered m
      → AllEntered (put max key v m)
  put-AllEntered max key v m new all k entry found = elim (lookup-put_cases max key v m) [
    | inr full ↦ all k entry (rw full at found)
    | inl stored ↦ elim (Bool-cases (task_key_eq.beq key k)) [
      | inr other ↦ all k entry (sym (lookup-put_ne max key k v m other) ∙ found)
      | inl same ↦
          let eq : key ≡ k = (task_key_eq.beq_iff key k).0 same in
          let given : lookup key (put max key v m) ≡ some entry =
            ap (λ j. lookup j (put max key v m)) eq ∙ found in
          let same_value : v ≡ entry = ap (λ o. or_default o v) (sym stored ∙ given) in
          rw (eq, same_value) at new
    ]
  ]

  submit-IsNamed :
      (memory : Option RawEvent) (fill : RawEvent → RawEvent) (s : Tracer)
      → ((e : RawEvent) → IsCall (fill e))
      → IsNamed s
      → IsNamed (submit memory fill s)
  unfolding submit
  submit-IsNamed none fill s called named = named
  submit-IsNamed (some e) fill s called named = record {
    calls = All-append IsCall s.ring (fill e ∷ []) named.calls (called e, tt);
    active = named.active;
  }

  sys_enter-IsNamed :
      (t : Task) (id : ℕ) (s : Tracer) → Enters hits t id → IsNamed s → IsNamed (sys_enter r t id s)
  unfolding sys_enter
  sys_enter-IsNamed t id s enters named = elim (Bool-cases (accepts r t)) [
    | inr refused ↦ rw refused named
    | inl accepted ↦ rw accepted (record {
      calls = named.calls;
      active =
          put-AllEntered max_active_syscalls (fill_task_key r t) (syscall_entry r t id)
            s.active_syscalls
            (record {
              task = t;
              id = id;
              enters = enters;
              accepted = accepted;
              key = refl;
              made = refl;
            })
            named.active;
    })
  ]

  syscall_event-HasBegun :
      (t : Task) (entry : ActiveSyscall) (e : RawEvent)
      → IsEntered (fill_task_key r t) entry
      → leb r.min_latency_ns (sub64 t.ktime_ns entry.start_ns) ≡ true
      → HasBegun (syscall_event r t entry e)
  unfolding syscall_event fill_event_common fill_task_key syscall_entry
  syscall_event-HasBegun t entry e began long = record {
    task = began.task;
    id = began.id;
    enters = began.enters;
    named = ground (arith, began.accepted);
    admitted =
        sym (ap (λ (k : TaskKey). filter_pid r k.pid) began.key) ∙ ground (arith, began.accepted);
    key = began.key;
    syscall_id = sym (ap (λ (a : ActiveSyscall). a.id) began.made);
    duration_ns = sym (ap (λ (a : ActiveSyscall). sub64 t.ktime_ns a.start_ns) began.made);
    long = long;
  }

  finish_syscall-IsNamed :
      (t : Task) (memory : Option RawEvent) (s : Tracer) (o : Option ActiveSyscall)
      → lookup (fill_task_key r t) s.active_syscalls ≡ o
      → IsNamed s
      → IsNamed (finish_syscall r t memory o s)
  unfolding finish_syscall
  finish_syscall-IsNamed t memory s none found named = named
  finish_syscall-IsNamed t memory s (some entry) found named =
      removed _ (emitted (leb r.min_latency_ns (sub64 t.ktime_ns entry.start_ns)) refl)
    where
      emitted :
          (b : Bool)
          → leb r.min_latency_ns (sub64 t.ktime_ns entry.start_ns) ≡ b
          → IsNamed (if b then submit memory (syscall_event r t entry) s else s)
      emitted false short = named
      emitted true long =
          submit-IsNamed memory (syscall_event r t entry) s
            (λ e type.
              syscall_event-HasBegun t entry e (named.active (fill_task_key r t) entry found) long)
            named

      removed :
          (s' : Tracer)
          → IsNamed s'
          → IsNamed (record s' { active_syscalls = remove (fill_task_key r t) s'.active_syscalls })
      removed s' kept = record {
        calls = kept.calls;
        active = remove-AllEntered (fill_task_key r t) s'.active_syscalls kept.active;
      }

  switch_out-IsNamed : (w : Switch) (s : Tracer) → IsNamed s → IsNamed (switch_out r w s)
  unfolding switch_out
  switch_out-IsNamed w s named = elim (Bool-cases (filter_pid r w.prev_pid)) [
    | inl h ↦ simp h (record { calls = named.calls; active = named.active })
    | inr h ↦ simp h named
  ]

  resume-IsNamed :
      (w : Switch) (o : Option SchedState) (s : Tracer) → IsNamed s → IsNamed (resume r w o s)
  unfolding resume
  resume-IsNamed w none s named = named
  resume-IsNamed w (some state) s named =
      resumed_by (ltb 0 state.switch_out_ns) (emitted (leb r.min_offcpu_ns offcpu_ns))
    where
      offcpu_ns : ℕ
      offcpu_ns = sub64 w.in_ns state.switch_out_ns

      no_call : (e : RawEvent) → IsCall (slice_event w offcpu_ns e)
      no_call e = unfold slice_event in λ h. absurd (ground (arith, h))

      emitted : (b : Bool) → IsNamed (if b then submit w.memory (slice_event w offcpu_ns) s else s)
      emitted false = named
      emitted true = submit-IsNamed w.memory (slice_event w offcpu_ns) s no_call named

      resumed_by :
          (b : Bool) {s' : Tracer}
          → IsNamed s'
          → IsNamed (
              if b
              then record s' {
                sched_states =
                    put max_sched_entries (tid_key w.next_pid) (resumed w state) s'.sched_states;
              }
              else s)
      resumed_by true kept = record { calls = kept.calls; active = kept.active }
      resumed_by false kept = named

  switch_in-IsNamed : (w : Switch) (s : Tracer) → IsNamed s → IsNamed (switch_in r w s)
  unfolding switch_in
  switch_in-IsNamed w s named = elim (Bool-cases (filter_pid r w.next_pid)) [
    | inl h ↦ simp h (resume-IsNamed w (lookup (tid_key w.next_pid) s.sched_states) s named)
    | inr h ↦ simp h named
  ]

  process-IsNamed :
      (t : Task) (type : ℕ) (memory : Option RawEvent) (s : Tracer)
      → (type ≡ 5) ⊎ (type ≡ 6)
      → IsNamed s
      → IsNamed (
          if filter_pid r (fill_task_key r t).pid
          then submit memory (lifetime_event r t type) s
          else s)
  process-IsNamed t type memory s types named = tested (filter_pid r (fill_task_key r t).pid)
    where
      no_call : (e : RawEvent) → IsCall (lifetime_event r t type e)
      no_call e = unfold lifetime_event in λ h. absurd (ground (arith, h, types))

      tested : (b : Bool) → IsNamed (if b then submit memory (lifetime_event r t type) s else s)
      tested false = named
      tested true = submit-IsNamed memory (lifetime_event r t type) s no_call named

  -- The hit is one of the hits, if it enters a call.
  abbrev IsAmong : Hit → Type 0
  IsAmong (enter t id) = Enters hits t id
  IsAmong _ = Unit {0}

  handle-IsNamed : (s : Tracer) (h : Hit) → IsAmong h → IsNamed s → IsNamed (handle r s h)
  unfolding handle sys_exit sched_switch process_exec process_exit
  handle-IsNamed s (enter t id) among named = sys_enter-IsNamed t id s among named
  handle-IsNamed s (exit t memory) among named =
      finish_syscall-IsNamed t memory s (lookup (fill_task_key r t) s.active_syscalls) refl named
  handle-IsNamed s (switch w) among named =
      switch_in-IsNamed w (switch_out r w s) (switch_out-IsNamed w s named)
  handle-IsNamed s (exec t memory) among named = process-IsNamed t 5 memory s (inl refl) named
  handle-IsNamed s (quit t memory) among named = process-IsNamed t 6 memory _ (inr refl) (record {
    calls = named.calls;
    active = remove-AllEntered (fill_task_key r t) s.active_syscalls named.active;
  })

  run-IsNamed : (hs : List Hit) (s : Tracer) → All IsAmong hs → IsNamed s → IsNamed (run r s hs)
  run-IsNamed [] s among named = named
  run-IsNamed (h ∷ hs) s among named =
      run-IsNamed hs (handle r s h) among.1 (handle-IsNamed s h among.0 named)

-- Every hit is among the hits.
later-IsAmong :
    (r : Rodata) (h : Hit) (hits hs : List Hit)
    → All (IsAmong r hits) hs
    → All (IsAmong r (h ∷ hits)) hs
later-IsAmong r h hits [] all = tt
later-IsAmong r h hits (enter t id ∷ hs) all = (inr all.0, later-IsAmong r h hits hs all.1)
later-IsAmong r h hits (exit t memory ∷ hs) all = (tt, later-IsAmong r h hits hs all.1)
later-IsAmong r h hits (switch w ∷ hs) all = (tt, later-IsAmong r h hits hs all.1)
later-IsAmong r h hits (exec t memory ∷ hs) all = (tt, later-IsAmong r h hits hs all.1)
later-IsAmong r h hits (quit t memory ∷ hs) all = (tt, later-IsAmong r h hits hs all.1)

first-IsAmong : (r : Rodata) (h : Hit) (hits : List Hit) → IsAmong r (h ∷ hits) h
first-IsAmong r (enter t id) hits = inl refl
first-IsAmong r (exit t memory) hits = tt
first-IsAmong r (switch w) hits = tt
first-IsAmong r (exec t memory) hits = tt
first-IsAmong r (quit t memory) hits = tt

all-IsAmong : (r : Rodata) (hits : List Hit) → All (IsAmong r hits) hits
all-IsAmong r [] = tt
all-IsAmong r (h ∷ hs) = (first-IsAmong r h hs, later-IsAmong r h hs hs (all-IsAmong r hs))

-- Whatever the handlers do from the start, each event of the ring is a call, a slice or the start or end of
-- a process with an id that filter_pid admits, calls and slices of the least duration at least. And each
-- call was entered: one of the hits is a task with the ids of the event that enters this call under a name
-- that filter_comm admits, and the duration is the time from there to the event. The name in the event is
-- that at the end of the call, and may be another; for slices and for the starts and ends of processes
-- nothing is said of the name, since the handlers do not look at it there.
pub run-admitted :
    (r : Rodata) (hits : List Hit)
    → All (IsTraced r) (run r empty hits).ring × All (IsCall r hits) (run r empty hits).ring
run-admitted r hits = (
  run-IsTraced r hits,
  (run-IsNamed r hits hits empty (all-IsAmong r hits) (
      unfold empty lookup in
      record { calls = tt; active = λ k entry h. absurd (ground (arith, h)) })).calls,
)
