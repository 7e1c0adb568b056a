-- ===== src/Tracer/Filters.antt =====
-- The filters: bpf/filters.h.
pub mod Names
use Prim.Native.Nat.{bit_or}
use kernel_scope.Prelude.{
  ℕ, ◌+◌, ◌/◌, ◌%◌, ◌^◌, ltb, leb, ◌==◌, if◌then◌else◌, Bool, true, false, not, ◌&&◌, List, [], ◌∷◌,
  Option, some, none, u32,
}
use kernel_scope.Prelude.Int.{ℤ, negsuc}
use kernel_scope.Decoder.{RawEvent}
use kernel_scope.Bpf.Loader.{Rodata}
use kernel_scope.Bpf.Bridge.{TaskKey}

unfoldable pub filter_pid : Rodata → ℕ → Bool
filter_pid r pid = if r.target_pid == 0 then true else pid == r.target_pid

-- The loop over the two arrays of 16 characters.
unfoldable pub same_name : List ℕ → List ℕ → Bool
same_name (t ∷ ts) (c ∷ cs) =
    let rest = same_name ts cs in if not (t == c) then false else if t == 0 then true else rest
same_name _ _ = true

abbrev pub is_unset : List ℕ → Bool
is_unset [] = true
is_unset (t ∷ ts) = t == 0

unfoldable pub filter_comm : Rodata → List ℕ → Bool
unfolding same_name
filter_comm r comm = if is_unset r.target_comm then true else same_name r.target_comm comm

-- The last argument is the answer of bpf_get_prandom_u32.
unfoldable pub should_capture_stack : Rodata → ℕ → Bool
should_capture_stack r random =
    if leb 100 r.stack_sampling_pct
    then true
    else if r.stack_sampling_pct == 0
    then false
    else ltb (random % 100) r.stack_sampling_pct

-- What the helpers answer about the task that a handler runs in: its ids, the ids in the namespace of
-- the tracer (`none` where that call fails), the name, the processor, and a reading of the clock, a
-- random number, and the ids of the two stacks.
pub record Task : Type 0 where
  pub pid_tgid : ℕ
  pub namespace_ids : Option (ℕ × ℕ)
  pub comm : List ℕ
  pub cpu : ℕ
  pub ktime_ns : ℕ
  pub random : ℕ
  pub user_stack : ℤ
  pub kern_stack : ℤ

abbrev pub global_ids : ℕ → ℕ × ℕ
global_ids pid_tgid = (u32 (pid_tgid / 2 ^ 32), u32 pid_tgid)

-- The answer of bpf_get_ns_current_pid_tgid, where it is asked.
unfoldable pub namespace_or_global : Option (ℕ × ℕ) → ℕ → ℕ × ℕ
namespace_or_global none pid_tgid = global_ids pid_tgid
namespace_or_global (some ids) pid_tgid = ids

unfoldable pub get_ns_pid_tgid : Rodata → Task → ℕ × ℕ
unfolding namespace_or_global
get_ns_pid_tgid r t =
    if not (r.pidns_dev == 0) && not (r.pidns_ino == 0)
    then namespace_or_global t.namespace_ids t.pid_tgid
    else global_ids t.pid_tgid

unfoldable pub fill_task_key : Rodata → Task → TaskKey
unfolding get_ns_pid_tgid
fill_task_key r t = let (pid, tid) = get_ns_pid_tgid r t in record { pid = pid; tid = tid }

-- `e` is the memory that was reserved.
unfoldable pub fill_event_common : Rodata → Task → RawEvent → RawEvent
unfolding get_ns_pid_tgid
fill_event_common r t e =
    let (pid, tid) = get_ns_pid_tgid r t in
    record e {
      pid = pid;
      tid = tid;
      timestamp_ns = t.ktime_ns;
      cpu = t.cpu;
      comm = t.comm;
      user_stack_id = negsuc 0;
      kern_stack_id = negsuc 0;
      flags = 0;
      classification = 0;
    }
