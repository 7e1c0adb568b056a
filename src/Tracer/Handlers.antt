-- ===== src/Tracer/Handlers.antt =====
-- The handlers of the five tracepoints: bpf/kscope.bpf.c.
use Prim.Native.Nat.{bit_or}
use kernel_scope.Prelude.{
  ℕ, ◌+◌, ltb, leb, ◌==◌, if◌then◌else◌, Bool, not, ◌&&◌, List, [], ◌∷◌, ◌++◌, Option, some, none,
  u32, u64, sub64, fold, take, drop, length,
}
use kernel_scope.Prelude.Int.{ℤ, negsuc, is_negative}
use kernel_scope.Prelude.Assoc.{lookup, or_default}
use kernel_scope.Prelude.Bounded.{put, remove}
use kernel_scope.Event.{until_nul}
use kernel_scope.Decoder.{RawEvent}
use kernel_scope.Bpf.Loader.{Rodata}
use kernel_scope.Bpf.Bridge.{TaskKey}
use kernel_scope.Tracer.{
  Tracer, ActiveSyscall, SchedState, task_key_eq, max_active_syscalls, max_sched_entries,
}
use kernel_scope.Tracer.Filters.{
  Task, filter_pid, filter_comm, should_capture_stack, fill_task_key, fill_event_common,
}

-- bpf_get_stackid where it is asked, and -1 otherwise.
unfoldable pub stack_id : Bool → ℤ → ℤ
stack_id asked answer = if asked then answer else negsuc 0

unfoldable pub stack_flag : ℤ → ℕ → ℕ
stack_flag id flag = if is_negative id then 0 else flag

-- The entry that tp_sys_enter makes. EVF_HAS_USER_STACK is 1, and EVF_HAS_KERN_STACK is 2.
unfoldable pub syscall_entry : Rodata → Task → ℕ → ActiveSyscall
unfolding stack_id stack_flag
syscall_entry r t id =
    let sampled : Bool = should_capture_stack r t.random in
    let user : ℤ = stack_id (sampled && not (r.capture_user_stacks == 0)) t.user_stack in
    let kern : ℤ = stack_id (sampled && not (r.capture_kern_stacks == 0)) t.kern_stack in
    record {
      id = id;
      start_ns = t.ktime_ns;
      user_stack_id = user;
      kern_stack_id = kern;
      flags = bit_or (stack_flag user 1) (stack_flag kern 2);
    }

abbrev pub accepts : Rodata → Task → Bool
accepts r t = filter_pid r (fill_task_key r t).pid && filter_comm r t.comm

unfoldable pub sys_enter : Rodata → Task → ℕ → Tracer → Tracer
unfolding syscall_entry
sys_enter r t id s =
    if accepts r t
    then record s {
      active_syscalls =
          put max_active_syscalls (fill_task_key r t) (syscall_entry r t id) s.active_syscalls;
    }
    else s

-- bpf_ringbuf_reserve answers memory, or `none` where the ring is full; bpf_ringbuf_submit appends what
-- `fill` makes of the memory.
unfoldable pub submit : Option RawEvent → (RawEvent → RawEvent) → Tracer → Tracer
submit none fill s = s
submit (some e) fill s = record s { ring = s.ring ++ fill e ∷ [] }

-- What tp_sys_exit writes, for an entry of the map.
unfoldable pub syscall_event : Rodata → Task → ActiveSyscall → RawEvent → RawEvent
unfolding fill_event_common
syscall_event r t entry e = record (fill_event_common r t e) {
  timestamp_ns = t.ktime_ns;
  type = 1;
  duration_ns = sub64 t.ktime_ns entry.start_ns;
  syscall_id = entry.id;
  user_stack_id = entry.user_stack_id;
  kern_stack_id = entry.kern_stack_id;
  flags = entry.flags;
}

unfoldable pub finish_syscall :
    Rodata → Task → Option RawEvent → Option ActiveSyscall → Tracer → Tracer
unfolding submit syscall_event
finish_syscall r t memory none s = s
finish_syscall r t memory (some entry) s =
    let emitted : Tracer =
      if leb r.min_latency_ns (sub64 t.ktime_ns entry.start_ns)
      then submit memory (syscall_event r t entry) s
      else s in
    record emitted { active_syscalls = remove (fill_task_key r t) emitted.active_syscalls }

unfoldable pub sys_exit : Rodata → Task → Option RawEvent → Tracer → Tracer
unfolding finish_syscall
sys_exit r t memory s = finish_syscall r t memory (lookup (fill_task_key r t) s.active_syscalls) s

-- What a switch reads: the context, two readings of the clock, the processor, and the memory that the
-- ring answers. `next_comm` is the name of the next task as an array of 16 characters.
pub record Switch : Type 0 where
  pub prev_pid : ℕ
  pub prev_state : ℕ
  pub next_pid : ℕ
  pub next_comm : List ℕ
  pub out_ns : ℕ
  pub in_ns : ℕ
  pub cpu : ℕ
  pub memory : Option RawEvent

abbrev pub tid_key : ℕ → TaskKey
tid_key tid = record { pid = tid; tid = tid }

abbrev pub no_state : SchedState
no_state = record { switch_out_ns = 0; switch_in_ns = 0; accumulated_offcpu_ns = 0; last_state = 0 }

-- The first half of tp_sched_switch. `prev_state` is cut to the width of the field.
unfoldable pub switch_out : Rodata → Switch → Tracer → Tracer
switch_out r w s =
    let old : SchedState = or_default (lookup (tid_key w.prev_pid) s.sched_states) no_state in
    let new : SchedState = record old { switch_out_ns = w.out_ns; last_state = u32 w.prev_state } in
    if filter_pid r w.prev_pid
    then record s { sched_states = put max_sched_entries (tid_key w.prev_pid) new s.sched_states }
    else s

-- bpf_probe_read_kernel_str to an array of 16 characters: the name and its NUL, in front of what the
-- memory held.
unfoldable pub read_name : List ℕ → List ℕ → List ℕ
unfolding until_nul
read_name source old =
    let name : List ℕ = take 15 (until_nul source) in name ++ 0 ∷ drop (length name + 1) old

-- The event of an off-CPU slice.
unfoldable pub slice_event : Switch → ℕ → RawEvent → RawEvent
unfolding read_name
slice_event w offcpu_ns e = record {
  timestamp_ns = w.in_ns;
  pid = w.next_pid;
  tid = w.next_pid;
  comm = read_name w.next_comm e.comm;
  cpu = w.cpu;
  type = 2;
  classification = 2;
  duration_ns = offcpu_ns;
  syscall_id = 0;
  user_stack_id = negsuc 0;
  kern_stack_id = negsuc 0;
  flags = 0;
  pad = 0;
}

-- The state of a task that was switched out, once it is switched in.
unfoldable pub resumed : Switch → SchedState → SchedState
resumed w state = record state {
  switch_in_ns = w.in_ns;
  accumulated_offcpu_ns = u64 (state.accumulated_offcpu_ns + sub64 w.in_ns state.switch_out_ns);
  switch_out_ns = 0;
}

unfoldable pub resume : Rodata → Switch → Option SchedState → Tracer → Tracer
unfolding submit slice_event resumed
resume r w none s = s
resume r w (some state) s =
    let offcpu_ns : ℕ = sub64 w.in_ns state.switch_out_ns in
    let emitted : Tracer =
      if leb r.min_offcpu_ns offcpu_ns then submit w.memory (slice_event w offcpu_ns) s else s in
    if ltb 0 state.switch_out_ns
    then record emitted {
      sched_states =
          put max_sched_entries (tid_key w.next_pid) (resumed w state) emitted.sched_states;
    }
    else s

-- The second half of tp_sched_switch; the state is changed in place.
unfoldable pub switch_in : Rodata → Switch → Tracer → Tracer
unfolding resume
switch_in r w s =
    if filter_pid r w.next_pid then resume r w (lookup (tid_key w.next_pid) s.sched_states) s else s

unfoldable pub sched_switch : Rodata → Switch → Tracer → Tracer
unfolding switch_out switch_in
sched_switch r w s = switch_in r w (switch_out r w s)

-- The event of the start or the end of a process.
unfoldable pub lifetime_event : Rodata → Task → ℕ → RawEvent → RawEvent
unfolding fill_event_common
lifetime_event r t type e = record (fill_event_common r t e) {
  type = type;
  duration_ns = 0;
  syscall_id = 0;
}

unfoldable pub process_exec : Rodata → Task → Option RawEvent → Tracer → Tracer
unfolding submit lifetime_event
process_exec r t memory s =
    if filter_pid r (fill_task_key r t).pid then submit memory (lifetime_event r t 5) s else s

unfoldable pub process_exit : Rodata → Task → Option RawEvent → Tracer → Tracer
unfolding submit lifetime_event
process_exit r t memory s =
    let key : TaskKey = fill_task_key r t in
    let cleaned : Tracer = record s {
      active_syscalls = remove key s.active_syscalls;
      sched_states = remove key s.sched_states;
    } in
    if filter_pid r key.pid then submit memory (lifetime_event r t 6) cleaned else cleaned

-- One call of a handler. Handlers of one task do not overlap, and a map operation is atomic, so that
-- what the processors do is a sequence of these.
pub data Hit : Type 0 where
  enter : Task → ℕ → Hit
  exit : Task → Option RawEvent → Hit
  switch : Switch → Hit
  exec : Task → Option RawEvent → Hit
  quit : Task → Option RawEvent → Hit

unfoldable pub handle : Rodata → Tracer → Hit → Tracer
unfolding sys_enter sys_exit sched_switch process_exec process_exit
handle r s (enter t id) = sys_enter r t id s
handle r s (exit t memory) = sys_exit r t memory s
handle r s (switch w) = sched_switch r w s
handle r s (exec t memory) = process_exec r t memory s
handle r s (quit t memory) = process_exit r t memory s

abbrev pub run : Rodata → Tracer → List Hit → Tracer
run r s hits = fold (handle r) s hits
